-- ===== src/Storage/Memory/Laws.antt =====
-- What `Apply` does to the content of a `MemoryStateMachine`, seen as a function of the key.
use stellmap_service.Base.{
  suc, ◌+◌, ◌%◌, ◌^◌, ◌<◌, ◌≡◌, inl, inr, refl, sym, ◌∙◌, subst, Bool, false, List, [], ◌∷◌, Option,
  none, some, arith, ltb, ◌==◌, if◌then◌else◌, Bool-cases, Option-cases, length,
}
use stellmap_service.Text
use stellmap_service.Text.{Bytes, eqb}
use stellmap_service.Text.Split.{eqb_iff}
use stellmap_service.GoMap.{
  lookup, insert, delete_if, lookup-insert, lookup-delete_if, IsMap, insert-IsMap, delete_if-IsMap,
}
use stellmap_service.Storage.{Operation, put, delete, delete_prefix, other, Command}
use stellmap_service.Storage.Memory.{
  delete_present, MemoryStateMachine, agrees, has_prefix, is_deleted, count_if, apply_operation,
  apply,
}

agrees_lem : (key prefix : Bytes) → agrees key prefix ≡ Text.has_prefix key prefix
unfolding agrees Text.has_prefix
agrees_lem key [] = refl
agrees_lem [] (b ∷ prefix) = refl
agrees_lem (a ∷ key) (b ∷ prefix) = ground (arith, agrees_lem key prefix)

short_has_no_prefix :
    (key prefix : Bytes) → length key < length prefix → Text.has_prefix key prefix ≡ false
unfolding Text.has_prefix
short_has_no_prefix key [] h = absurd (omega arith)
short_has_no_prefix [] (b ∷ prefix) h = refl
short_has_no_prefix (a ∷ key) (b ∷ prefix) h = ground (arith, short_has_no_prefix key prefix)

-- The service's own prefix test agrees with the library's.
has_prefix_lem : (key prefix : Bytes) → has_prefix key prefix ≡ Text.has_prefix key prefix
unfolding has_prefix
has_prefix_lem key prefix = elim (Bool-cases (ltb (length key) (length prefix))) [
  | inl short ↦ rw short (sym (short_has_no_prefix key prefix (ground arith)))
  | inr long ↦ rw long (agrees_lem key prefix)
]

is_deleted_lem : (prefix key : Bytes) → is_deleted prefix key ≡ Text.has_prefix key prefix
unfolding is_deleted Text.has_prefix
is_deleted_lem [] key = refl
is_deleted_lem (b ∷ prefix) key =
    let filled : (suc (length prefix) == 0) ≡ false = ground arith in
    rw filled (has_prefix_lem key (b ∷ prefix))

-- The content as the specification sees it.
abbrev pub Content : Type 0
Content = Bytes → Option Bytes

abbrev pub content : MemoryStateMachine → Content
content m key = lookup key m.entries

-- What a command means for the content.
abbrev pub meaning : Operation → Command → Content → Content
meaning put cmd f key = if eqb cmd.key key then some cmd.value else f key
meaning delete cmd f key = if eqb cmd.key key then none else f key
meaning delete_prefix cmd f key = if Text.has_prefix key cmd.prefix then none else f key
meaning (other _) cmd f key = f key

apply_operation-content :
    (op : Operation) (cmd : Command) (m : List (Bytes × Bytes)) (key : Bytes)
    → lookup key (apply_operation op cmd m).0 ≡ meaning op cmd (λ k. lookup k m) key
unfolding apply_operation delete_present
apply_operation-content put cmd m key = lookup-insert cmd.key key cmd.value m
apply_operation-content delete cmd m key = elim (Option-cases (lookup cmd.key m)) [
  | inl absent ↦
      rw (absent, delete_present)
        (elim (Bool-cases (eqb cmd.key key)) [
          | inl same ↦
              rw same (subst (λ k. lookup k m ≡ none) ((eqb_iff cmd.key key).0 same) absent)
          | inr other_key ↦ rw other_key
        ])
  | inr (value, present) ↦
      rw (present, delete_present)
        (lookup-delete_if (λ k. eqb k cmd.key) key m
          ∙ ground (arith, eqb_iff cmd.key key, eqb_iff key cmd.key))
]
apply_operation-content delete_prefix cmd m key =
    lookup-delete_if (is_deleted cmd.prefix) key m ∙ rw (is_deleted_lem cmd.prefix key)
apply_operation-content (other _) cmd m key = refl

-- After `Apply` each key reads as the meaning of the command says: a put gives its key the value, a
-- deletion removes its key, a prefix deletion all keys with the prefix, and any other operation
-- changes nothing.
pub apply-content :
    (m : MemoryStateMachine) (cmd : Command) (key : Bytes)
    → content (apply m cmd).0 key ≡ meaning cmd.operation cmd (content m) key
unfolding apply
apply-content m cmd key = apply_operation-content cmd.operation cmd m.entries key

-- Every command, of a known operation or not, counts as one applied; the count wraps as a
-- `uint64`.
applied_index-apply :
    (m : MemoryStateMachine) (cmd : Command)
    → (apply m cmd).0.applied_index ≡ (m.applied_index + 1) % 2 ^ 64
unfolding apply
applied_index-apply m cmd = refl

count_if-delete_if :
    (p : Bytes → Bool) (m : List (Bytes × Bytes)) → length (delete_if p m) + count_if p m ≡ length m
unfolding delete_if count_if
count_if-delete_if p [] = omega arith
count_if-delete_if p ((k, v) ∷ m) = ground (arith, count_if-delete_if p m)

length-insert :
    (k v : Bytes) (m : List (Bytes × Bytes))
    → length (insert k v m) ≡ (elim (lookup k m) [ some _ ↦ length m | none ↦ length m + 1 ])
unfolding insert lookup
length-insert k v [] = omega arith
length-insert k v ((j, w) ∷ m) = ground (arith, length-insert k v m)

apply_operation-IsMap :
    (op : Operation) (cmd : Command) (m : List (Bytes × Bytes))
    → IsMap m
    → IsMap (apply_operation op cmd m).0
unfolding apply_operation delete_present
apply_operation-IsMap put cmd m h = insert-IsMap cmd.key cmd.value m h
apply_operation-IsMap delete cmd m h = elim (Option-cases (lookup cmd.key m)) [
  | inl absent ↦ rw (absent, delete_present) h
  | inr (value, present) ↦ rw (present, delete_present) (delete_if-IsMap (λ k. eqb k cmd.key) m h)
]
apply_operation-IsMap delete_prefix cmd m h = delete_if-IsMap (is_deleted cmd.prefix) m h
apply_operation-IsMap (other _) cmd m h = h

-- If no key stands twice in the map of the machine, none does after `Apply` of any command.
apply-IsMap :
    (m : MemoryStateMachine) (cmd : Command) → IsMap m.entries → IsMap (apply m cmd).0.entries
unfolding apply
apply-IsMap m cmd h = apply_operation-IsMap cmd.operation cmd m.entries h

-- A prefix deletion reports as many keys as it takes away.
apply-delete_prefix_modified :
    (m : MemoryStateMachine) (cmd : Command)
    → cmd.operation ≡ delete_prefix
    → length (apply m cmd).0.entries + (apply m cmd).1 ≡ length m.entries
unfolding apply apply_operation
apply-delete_prefix_modified m cmd h = rw h (count_if-delete_if (is_deleted cmd.prefix) m.entries)
