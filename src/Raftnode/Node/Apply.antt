-- ===== src/Raftnode/Node/Apply.antt =====
-- What applying committed entries does to the content of the state machine.
use stellmap_service.Base.{
  ℕ, ◌≡◌, inl, inr, refl, sym, ap, ◌∙◌, false, List, [], ◌∷◌, ◌++◌, append_assoc, Option, none,
  some, ltb, Bool-cases, ok,
}
use stellmap_service.Text.{Bytes}
use stellmap_service.Storage.{Command}
use stellmap_service.Storage.Memory.Laws.{Content, meaning}
use stellmap_service.Storage.Pebble.Engine.{Database, IsDatabase, Json, Write, set}
use stellmap_service.Storage.Uint64.{encode_uint64}
use stellmap_service.Storage.Pebble.Prefix.{IsClean}
use stellmap_service.Storage.Pebble.{
  PebbleStore, is_meta_key, apply_command, commit_writes, apply_writes, require_db, opened,
  set_number, set_applied_index, set_applied_term, meta_applied_index_key, meta_applied_term_key,
}
use stellmap_service.Storage.Pebble.Laws.{store_content, meaning_cong, apply_command-content}
use stellmap_service.Storage.Pebble.Metadata.{
  meta_apart, set_number-content, is_meta_key-index_key, is_meta_key-term_key,
}
use stellmap_service.Raftnode.Ready.{
  Entry, EntryType, entry_normal, entry_conf_change, entry_conf_change_v2, Protobuf,
}
use stellmap_service.Raftnode.Node.{
  Parts, keep, keep_applied, apply_decoded, apply_normal, apply_entries, mark_both, mark_applied,
}

-- The meaning of commands, one after the other.
abbrev pub meanings : List Command → Content → Content
meanings [] f = f
meanings (c ∷ cs) f = meanings cs (meaning c.operation c f)

-- The commands that entries hold.
abbrev pub command_of : (Bytes → Option Command) → EntryType → Bytes → List Command
command_of decode entry_normal [] = []
command_of decode entry_normal (b ∷ bs) = elim (decode (b ∷ bs)) [ some c ↦ c ∷ [] | none ↦ [] ]
command_of decode entry_conf_change payload = []
command_of decode entry_conf_change_v2 payload = []

abbrev pub commands_of : (Bytes → Option Command) → List Entry → List Command
commands_of decode [] = []
commands_of decode (e ∷ es) = command_of decode e.entry_type e.payload ++ commands_of decode es

pub meanings-append :
    (cs ds : List Command) (f : Content) → meanings (cs ++ ds) f ≡ meanings ds (meanings cs f)
meanings-append [] ds f = refl
meanings-append (c ∷ cs) ds f = meanings-append cs ds (meaning c.operation c f)

pub meanings_cong :
    (cs : List Command) (f g : Content) (key : Bytes)
    → f key ≡ g key
    → meanings cs f key ≡ meanings cs g key
meanings_cong [] f g key h = h
meanings_cong (c ∷ cs) f g key h =
    meanings_cong cs (meaning c.operation c f) (meaning c.operation c g) key
      (meaning_cong c.operation c f g key h)

pub commands_of-append :
    (decode : Bytes → Option Command) (xs ys : List Entry)
    → commands_of decode (xs ++ ys) ≡ commands_of decode xs ++ commands_of decode ys
commands_of-append decode [] ys = refl
commands_of-append decode (x ∷ xs) ys =
    ap (λ (l : List Command). command_of decode x.entry_type x.payload ++ l)
      (commands_of-append decode xs ys)
    ∙ sym (
        append_assoc (command_of decode x.entry_type x.payload) (commands_of decode xs)
          (commands_of decode ys))

-- A database whose commits succeed.
abbrev pub NeverFails : {D : Type 0} → Database D → Type 0
NeverFails {D} pebble = (d : D) (ws : List Write) → (d' : D) × (pebble.commit d ws ≡ ok d')

abbrev pub IsOpen : {D : Type 0} → PebbleStore D → Type 0
IsOpen {D} s = (d : D) × (s.db ≡ some d)

module _ {R S W N C M D : Type 0} (parts : Parts R S W N C) (pb : Protobuf C M)
    (pebble : Database D) (json : Json) (content_of : D → Content)
    (laws : IsDatabase pebble content_of) (never_fails : NeverFails pebble) where
  abbrev pub held : PebbleStore D → Content
  held s = store_content pebble content_of laws s

  require_db-some : (s : PebbleStore D) {d : D} → s.db ≡ some d → require_db s ≡ ok d
  unfolding require_db opened
  require_db-some s h = rw h

  commit_writes_ok :
      (s : PebbleStore D) (d : D) (o : Option (List Write))
      → IsOpen s
      → (s' : PebbleStore D) × (n : ℕ) × (commit_writes pebble s d o ≡ ok (s', n)) × IsOpen s'
  unfolding commit_writes
  commit_writes_ok s d none op = (s, 0, refl, op)
  commit_writes_ok s d (some ws) op =
      let (d', h) = never_fails d ws in (record { db = some d' }, 1, rw h refl, (d', refl))

  apply_command_ok :
      (s : PebbleStore D) (cmd : Command)
      → IsOpen s
      → (s' : PebbleStore D) × (n : ℕ) × (apply_command pebble s cmd ≡ ok (s', n)) × IsOpen s'
  unfolding apply_command
  apply_command_ok s cmd (d, h) =
      let (s', n, q, op) = commit_writes_ok s d (apply_writes cmd.operation cmd) (d, h) in
      (s', n, rw (require_db-some s h) q, op)

  apply_decoded-content :
      (o : Option Command) (s : PebbleStore D) (key : Bytes)
      → IsClean key
      → IsOpen s
      → (held (apply_decoded parts pb pebble json o s) key
          ≡ meanings (elim o [ some c ↦ c ∷ [] | none ↦ [] ]) (held s) key)
        × IsOpen (apply_decoded parts pb pebble json o s)
  unfolding apply_decoded keep_applied
  apply_decoded-content none s key clean op = (refl, op)
  apply_decoded-content (some cmd) s key clean op =
      let (s', n, q, op') = apply_command_ok s cmd op in
      (rw q (apply_command-content pebble content_of laws s cmd key clean q), rw q op')

  pub apply_normal-content :
      (t : EntryType) (payload : Bytes) (s : PebbleStore D) (key : Bytes)
      → IsClean key
      → IsOpen s
      → (held (apply_normal parts pb pebble json t payload s) key
          ≡ meanings (command_of parts.decode_command t payload) (held s) key)
        × IsOpen (apply_normal parts pb pebble json t payload s)
  unfolding apply_normal
  apply_normal-content entry_normal [] s key clean op = (refl, op)
  apply_normal-content entry_normal (b ∷ bs) s key clean op =
      apply_decoded-content (parts.decode_command (b ∷ bs)) s key clean op
  apply_normal-content entry_conf_change payload s key clean op = (refl, op)
  apply_normal-content entry_conf_change_v2 payload s key clean op = (refl, op)

  -- Applying entries changes every key as the commands in them mean, one after the other; other
  -- entries, empty ones and those that do not parse change nothing.
  pub apply_entries-content :
      (es : List Entry) (r : R) (s : PebbleStore D) (key : Bytes)
      → IsClean key
      → IsOpen s
      → (held (apply_entries parts pb pebble json es (r, s)).1 key
          ≡ meanings (commands_of parts.decode_command es) (held s) key)
        × IsOpen (apply_entries parts pb pebble json es (r, s)).1
  unfolding apply_entries
  apply_entries-content [] r s key clean op = (refl, op)
  apply_entries-content (e ∷ es) r s key clean op =
      let (here, op1) = apply_normal-content e.entry_type e.payload s key clean op in
      let (rest, op2) = apply_entries-content es _ _ key clean op1 in
      (
        rest
            ∙ meanings_cong (commands_of parts.decode_command es) _ _ key here
            ∙ ap (λ (f : Content). f key)
                (sym (
                  meanings-append (command_of parts.decode_command e.entry_type e.payload)
                    (commands_of parts.decode_command es) (held s))),
        op2,
      )

  set_number_ok :
      (s : PebbleStore D) (key : Bytes) (n : ℕ)
      → IsOpen s
      → (s' : PebbleStore D) × (set_number pebble s key n ≡ ok s') × IsOpen s'
  unfolding set_number
  set_number_ok s key n (d, h) =
      let (d', q) = never_fails d (set key (encode_uint64 n) ∷ []) in
      (record { db = some d' }, rw (require_db-some s h, q) refl, (d', refl))

  pub mark_both-content :
      (index term : ℕ) (s : PebbleStore D) (key : Bytes)
      → is_meta_key key ≡ false
      → IsOpen s
      → (held (mark_both parts pb pebble json index term s) key ≡ held s key)
        × IsOpen (mark_both parts pb pebble json index term s)
  unfolding mark_both keep set_applied_index set_applied_term
  mark_both-content index term s key plain op =
      let (s1, q1, op1) = set_number_ok s meta_applied_index_key index op in
      let (s2, q2, op2) = set_number_ok s1 meta_applied_term_key term op1 in
      (
        rw (q1, q2)
            (set_number-content pebble content_of laws s1 meta_applied_term_key term q2 key
              ∙ rw (meta_apart meta_applied_term_key key is_meta_key-term_key plain) (
                  set_number-content pebble content_of laws s meta_applied_index_key index q1 key
                  ∙ rw (meta_apart meta_applied_index_key key is_meta_key-index_key plain))),
        rw (q1, q2) op2,
      )

  pub mark_applied-content :
      (index term : ℕ) (s : PebbleStore D) (key : Bytes)
      → is_meta_key key ≡ false
      → IsOpen s
      → (held (mark_applied parts pb pebble json index term s) key ≡ held s key)
        × IsOpen (mark_applied parts pb pebble json index term s)
  unfolding mark_applied
  mark_applied-content index term s key plain op = elim (Bool-cases (ltb 0 index)) [
    | inl e ↦ rw e (mark_both-content index term s key plain op)
    | inr e ↦ rw e (refl, op)
  ]
