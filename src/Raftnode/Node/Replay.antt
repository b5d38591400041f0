-- ===== src/Raftnode/Node/Replay.antt =====
-- A restart applies entries again that the state machine has seen: the content is the same.
use stellmap_service.Base.{
  ℕ, ◌≤◌, ◌<◌, ◌≡◌, inl, inr, refl, sym, ap, ◌∙◌, Bool, false, not, ◌||◌, List, [], ◌∷◌, ◌++◌,
  Option, none, some, arith, ltb, leb, if◌then◌else◌, Bool-cases, select, All,
}
use stellmap_service.Text.{Bytes, eqb}
use stellmap_service.Text
use stellmap_service.Storage.{Operation, put, delete, delete_prefix, other, Command}
use stellmap_service.Storage.Memory.Laws.{Content, meaning}
use stellmap_service.Storage.Pebble.Engine.{Database, IsDatabase, Json}
use stellmap_service.Storage.Pebble.Prefix.{IsClean}
use stellmap_service.Storage.Pebble.{PebbleStore, is_meta_key}
use stellmap_service.Raftnode.Ready.{Entry, Protobuf}
use stellmap_service.Raftnode.Node.{Parts, apply_entries, apply_normal}
use stellmap_service.Raftnode.Node.Apply.{
  meanings, command_of, commands_of, meanings-append, meanings_cong, commands_of-append, NeverFails,
  IsOpen, held, apply_normal-content, apply_entries-content, mark_both-content,
}
use stellmap_service.Raftnode.Node.Recover.{replay_entries}

-- What commands leave under a key whatever was there: `none` if none of them writes it.
abbrev written : Operation → Command → Bytes → Option (Option Bytes)
written put c key = if eqb c.key key then some (some c.value) else none
written delete c key = if eqb c.key key then some none else none
written delete_prefix c key = if Text.has_prefix key c.prefix then some none else none
written (other _) c key = none

abbrev or_else : Option (Option Bytes) → Option Bytes → Option Bytes
or_else none old = old
or_else (some new) old = new

abbrev later : Option (Option Bytes) → Option (Option Bytes) → Option (Option Bytes)
later none first = first
later (some new) first = some new

abbrev last_write : List Command → Bytes → Option (Option Bytes)
last_write [] key = none
last_write (c ∷ cs) key = later (last_write cs key) (written c.operation c key)

meaning-written :
    (op : Operation) (c : Command) (f : Content) (key : Bytes)
    → meaning op c f key ≡ or_else (written op c key) (f key)
meaning-written put c f key = ground arith
meaning-written delete c f key = ground arith
meaning-written delete_prefix c f key = ground arith
meaning-written (other _) c f key = refl

or_else-later :
    (new first : Option (Option Bytes)) (old : Option Bytes)
    → or_else new (or_else first old) ≡ or_else (later new first) old
or_else-later none first old = refl
or_else-later (some x) first old = refl

meanings-last_write :
    (cs : List Command) (f : Content) (key : Bytes)
    → meanings cs f key ≡ or_else (last_write cs key) (f key)
meanings-last_write [] f key = refl
meanings-last_write (c ∷ cs) f key =
    meanings-last_write cs (meaning c.operation c f) key
    ∙ ap (or_else (last_write cs key)) (meaning-written c.operation c f key)
    ∙ or_else-later (last_write cs key) (written c.operation c key) (f key)

last_write-append :
    (cs ds : List Command) (key : Bytes)
    → last_write (cs ++ ds) key ≡ later (last_write ds key) (last_write cs key)
last_write-append [] ds key = later_nothing (last_write ds key)
  where
    later_nothing : (o : Option (Option Bytes)) → o ≡ later o none
    later_nothing none = refl
    later_nothing (some x) = refl
last_write-append (c ∷ cs) ds key =
    ap (λ (o : Option (Option Bytes)). later o (written c.operation c key))
      (last_write-append cs ds key)
    ∙ later_assoc (last_write ds key) (last_write cs key) (written c.operation c key)
  where
    later_assoc : (a b c : Option (Option Bytes)) → later (later a b) c ≡ later a (later b c)
    later_assoc none b c = refl
    later_assoc (some x) b c = refl

-- Commands of which some have been applied before have, when all are applied, the result of applying
-- all once.
meanings_again :
    (cs ds : List Command) (f : Content) (key : Bytes)
    → meanings (cs ++ ds) (meanings cs f) key ≡ meanings (cs ++ ds) f key
meanings_again cs ds f key =
    meanings-last_write (cs ++ ds) (meanings cs f) key
    ∙ ap (or_else (last_write (cs ++ ds) key)) (meanings-last_write cs f key)
    ∙ ap (λ (o : Option (Option Bytes)). or_else o (or_else (last_write cs key) (f key)))
        (last_write-append cs ds key)
    ∙ absorbed (last_write ds key) (last_write cs key) (f key)
    ∙ sym (
        meanings-last_write (cs ++ ds) f key
        ∙ ap (λ (o : Option (Option Bytes)). or_else o (f key)) (last_write-append cs ds key))
  where
    absorbed :
        (new first : Option (Option Bytes)) (old : Option Bytes)
        → or_else (later new first) (or_else first old) ≡ or_else (later new first) old
    absorbed (some x) first old = refl
    absorbed none none old = refl
    absorbed none (some x) old = refl

-- the entries that the loop applies
abbrev in_window : ℕ → ℕ → Entry → Bool
in_window low high e = not (leb e.index low || ltb high e.index)

module _ {R S W N C M D : Type 0} (parts : Parts R S W N C) (pb : Protobuf C M)
    (pebble : Database D) (json : Json) (content_of : D → Content)
    (laws : IsDatabase pebble content_of) (never_fails : NeverFails pebble) where
  abbrev pub held_by : PebbleStore D → Content
  held_by s = held parts pb pebble json content_of laws never_fails s

  replay_entries-content :
      (low high : ℕ) (es : List Entry) (s : PebbleStore D) (key : Bytes)
      → IsClean key
      → is_meta_key key ≡ false
      → IsOpen s
      → held_by (replay_entries parts pb pebble json low high es s) key
        ≡ meanings
            (commands_of parts.decode_command (select (in_window low high) es))
            (held_by s)
            key
  unfolding replay_entries
  replay_entries-content low high [] s key clean plain op = refl
  replay_entries-content low high (e ∷ es) s key clean plain op =
      elim (Bool-cases (leb e.index low || ltb high e.index)) [
        | inl out ↦ rw out (replay_entries-content low high es s key clean plain op)
        | inr inside ↦
            let (here, op1) =
              apply_normal-content parts pb pebble json content_of laws never_fails e.entry_type
                e.payload s key clean op in
            let (marked, op2) =
              mark_both-content parts pb pebble json content_of laws never_fails e.index e.term
                (apply_normal parts pb pebble json e.entry_type e.payload s) key plain op1 in
            let rest : List Command =
              commands_of parts.decode_command (select (in_window low high) es) in
            rw inside (
              replay_entries-content low high es _ key clean plain op2
              ∙ meanings_cong rest _ _ key (marked ∙ here)
              ∙ ap (λ (f : Content). f key)
                  (sym (
                    meanings-append (command_of parts.decode_command e.entry_type e.payload) rest
                      (held_by s))))
      ]

  select-All :
      (low high : ℕ) (es : List Entry)
      → All (λ e. (low < e.index) × (e.index ≤ high)) es
      → select (in_window low high) es ≡ es
  select-All low high [] a = refl
  select-All low high (e ∷ es) ((h, q), a) =
      let inside : (leb e.index low || ltb high e.index) ≡ false = ground arith in
      rw inside (ap (◌∷◌ e) (select-All low high es a))

  -- If a node with an open store stops after it has applied some of the committed entries, and the
  -- loop of the restart, between whose bounds all of them lie, then goes through all of them, every
  -- key of the data without a byte 0xFF has what applying all of them once gives, when no commit of
  -- the database fails.
  pub replay_after_crash :
      (low high : ℕ) (xs ys : List Entry) (r : R) (s : PebbleStore D) (key : Bytes)
      → IsClean key
      → is_meta_key key ≡ false
      → IsOpen s
      → All (λ e. (low < e.index) × (e.index ≤ high)) (xs ++ ys)
      → held_by
          (replay_entries parts pb pebble json low high
            (xs ++ ys)
            (apply_entries parts pb pebble json xs (r, s)).1)
          key
        ≡ held_by (apply_entries parts pb pebble json (xs ++ ys) (r, s)).1 key
  replay_after_crash low high xs ys r s key clean plain op a =
      let before =
        apply_entries-content parts pb pebble json content_of laws never_fails xs r s key clean
          op in
      let whole =
        apply_entries-content parts pb pebble json content_of laws never_fails (xs ++ ys) r s key
          clean op in
      let decode = parts.decode_command in
      let cs : List Command = commands_of decode xs in
      let ds : List Command = commands_of decode ys in
      replay_entries-content low high (xs ++ ys) _ key clean plain before.1
      ∙ rw (select-All low high (xs ++ ys) a, commands_of-append decode xs ys)
          (meanings_cong (cs ++ ds) _ (meanings cs (held_by s)) key before.0)
      ∙ meanings_again cs ds (held_by s) key
      ∙ sym (whole.0 ∙ rw (commands_of-append decode xs ys))
