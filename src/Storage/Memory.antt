-- ===== src/Storage/Memory.antt =====
-- `MemoryStateMachine` (internal/storage/state_machine.go). Its lock makes each method one step.
pub mod Laws
pub mod Scan
use stellmap_service.Base.{
  ℕ, zero, suc, ◌+◌, ◌-◌, ◌*◌, ◌/◌, ◌%◌, ◌^◌, ◌≤◌, ◌<◌, ◌≡◌, ◌≢◌, ◌↔◌, ◌⊎◌, inl, inr, refl, sym, ap,
  ap₂, ◌∙◌, subst, fun_ext, Bool, true, false, not, ◌&&◌, ◌||◌, List, [], ◌∷◌, ◌++◌, map, reverse,
  append-nil, append_assoc, reverse-append, reverse-reverse, Option, none, some, arith, ltb, leb,
  ◌==◌, if◌then◌else◌, ==_refl, ==→eq, Bool-cases, Option-cases, &&-true, length, take, drop,
  get_last?, select, any, All, length-append, length-drop, take-append-drop, select-append,
  length-select, All-append, ℤ, pos, negsuc, pos_part, neg_part, sub_ℕ, ◌+ℤ◌, ◌≤ℤ◌, int_leb,
  IsInt64, wrap_int64, wrap_int64_of_IsInt64, wrap_int64-IsInt64, Result, ok, err, ◌>>=◌,
  bind-eq-ok,
}
use stellmap_service.Text.{Bytes, eqb}
use stellmap_service.GoMap.{lookup, insert, delete_if}
use stellmap_service.Storage.{Operation, put, delete, delete_prefix, other, Command, Kv}
use stellmap_service.Storage.Order.{lt_bytes}

pub record MemoryStateMachine : Type 0 where
  pub entries : List (Bytes × Bytes)
  pub applied_index : ℕ

unfoldable pub new_memory_state_machine : MemoryStateMachine
new_memory_state_machine = record { entries = []; applied_index = 0 }

-- the loop of `hasPrefix`
unfoldable pub agrees : Bytes → Bytes → Bool
agrees key [] = true
agrees [] (b ∷ prefix) = false
agrees (a ∷ key) (b ∷ prefix) = if a == b then agrees key prefix else false

unfoldable pub has_prefix : Bytes → Bytes → Bool
unfolding agrees
has_prefix key prefix = if ltb (length key) (length prefix) then false else agrees key prefix

-- the test of the loop of `delete_prefix`
unfoldable pub is_deleted : Bytes → Bytes → Bool
unfolding has_prefix
is_deleted prefix key = length prefix == 0 || has_prefix key prefix

unfoldable pub count_if : (Bytes → Bool) → List (Bytes × Bytes) → ℕ
count_if p [] = 0
count_if p ((k, v) ∷ m) = (if p k then 1 else 0) + count_if p m

-- `case OperationDelete`, with what the map holds for the key
unfoldable pub delete_present :
    Option Bytes → Bytes → List (Bytes × Bytes) → List (Bytes × Bytes) × ℕ
delete_present none key m = (m, 0)
delete_present (some _) key m = (delete_if (λ k. eqb k key) m, 1)

-- the switch of `Apply`: the new map, and `result.Modified`
unfoldable pub apply_operation :
    Operation → Command → List (Bytes × Bytes) → List (Bytes × Bytes) × ℕ
unfolding delete_present
apply_operation put cmd m = (insert cmd.key cmd.value m, 1)
apply_operation delete cmd m = delete_present (lookup cmd.key m) cmd.key m
apply_operation delete_prefix cmd m =
    (delete_if (is_deleted cmd.prefix) m, count_if (is_deleted cmd.prefix) m)
apply_operation (other _) cmd m = (m, 0)

unfoldable pub apply : MemoryStateMachine → Command → MemoryStateMachine × ℕ
unfolding apply_operation
apply m cmd =
    let (entries, modified) = apply_operation cmd.operation cmd m.entries in
    (record { entries = entries; applied_index = (m.applied_index + 1) % 2 ^ 64 }, modified)

-- a missing key reads as no bytes
unfoldable pub get : MemoryStateMachine → Bytes → Bytes
unfolding lookup
get m key = elim (lookup key m.entries) [ some value ↦ value | none ↦ [] ]

-- `sort.Strings`
unfoldable pub insert_sorted : Bytes → List Bytes → List Bytes
insert_sorted k [] = k ∷ []
insert_sorted k (j ∷ ks) = if lt_bytes j k then j ∷ insert_sorted k ks else k ∷ j ∷ ks

unfoldable pub sort_strings : List Bytes → List Bytes
unfolding insert_sorted
sort_strings [] = []
sort_strings (k ∷ ks) = insert_sorted k (sort_strings ks)

-- the two tests that skip a key
unfoldable pub in_range : Bytes → Bytes → Bytes → Bool
in_range start end key =
    if ltb 0 (length start) && lt_bytes key start
    then false
    else if ltb 0 (length end) && not (lt_bytes key end)
    then false
    else true

-- the loop over the sorted keys, with the number of items so far
unfoldable pub scan_keys : List (Bytes × Bytes) → Bytes → Bytes → ℤ → ℕ → List Bytes → List Kv
unfolding in_range lookup
scan_keys m start end limit n [] = []
scan_keys m start end limit n (k ∷ ks) =
    let skipped = scan_keys m start end limit n ks in
    let item : Kv = record {
      key = k;
      value = elim (lookup k m) [ some value ↦ value | none ↦ [] ];
    } in
    let more = scan_keys m start end limit (n + 1) ks in
    let taken =
      if not (int_leb limit (pos 0)) && int_leb limit (pos (n + 1))
      then item ∷ []
      else item ∷ more in
    if in_range start end k then taken else skipped

unfoldable pub scan : MemoryStateMachine → Bytes → Bytes → ℤ → List Kv
unfolding scan_keys sort_strings
scan m start end limit =
    scan_keys m.entries start end limit 0 (sort_strings (map (λ e. e.0) m.entries))
