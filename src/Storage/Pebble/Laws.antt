-- ===== src/Storage/Pebble/Laws.antt =====
-- The Pebble store does what the memory state machine does, key by key.
use stellmap_service.Base.{
  ℕ, ◌≡◌, refl, sym, ap, ◌∙◌, subst, List, [], ◌∷◌, ◌++◌, Option, none, some, ok, bind-eq-ok,
}
use stellmap_service.Storage.Pebble.{
  commit_writes, opened, PebbleStore, require_db, apply_writes, apply_command,
}
use stellmap_service.Text.{Bytes}
use stellmap_service.Storage.{Operation, put, delete, delete_prefix, other, Command}
use stellmap_service.Storage.Memory.{MemoryStateMachine, apply}
use stellmap_service.Storage.Memory.Laws.{Content, content, meaning, apply-content}
use stellmap_service.Storage.Pebble.Engine.{
  Database, IsDatabase, Write, set, remove, remove_range, write_all,
}
use stellmap_service.Storage.Pebble.Prefix.{IsClean, range-has_prefix}

pub meaning_cong :
    (op : Operation) (cmd : Command) (f g : Content) (key : Bytes)
    → f key ≡ g key
    → meaning op cmd f key ≡ meaning op cmd g key
meaning_cong put cmd f g key h = rw h
meaning_cong delete cmd f g key h = rw h
meaning_cong delete_prefix cmd f g key h = rw h
meaning_cong (other _) cmd f g key h = h

writes-meaning :
    (op : Operation) (cmd : Command) (f : Content) (key : Bytes) {ws : List Write}
    → IsClean key
    → apply_writes op cmd ≡ some ws
    → write_all ws f key ≡ meaning op cmd f key
unfolding apply_writes
writes-meaning put cmd f key {ws} c h =
    let same : set cmd.key cmd.value ∷ [] ≡ ws = cc h in
    subst (λ l. write_all l f key ≡ meaning put cmd f key) same refl
writes-meaning delete cmd f key {ws} c h =
    let same : remove cmd.key ∷ [] ≡ ws = cc h in
    subst (λ l. write_all l f key ≡ meaning delete cmd f key) same refl
writes-meaning delete_prefix cmd f key {ws} c h =
    let same : remove_range cmd.prefix (cmd.prefix ++ 0xFF ∷ []) ∷ [] ≡ ws = cc h in
    subst (λ l. write_all l f key ≡ meaning delete_prefix cmd f key) same
      (rw (range-has_prefix key cmd.prefix c))
writes-meaning (other _) cmd f key c h = absurd cc

no_writes-meaning :
    (op : Operation) (cmd : Command) (f : Content) (key : Bytes)
    → apply_writes op cmd ≡ none
    → meaning op cmd f key ≡ f key
unfolding apply_writes
no_writes-meaning put cmd f key h = absurd cc
no_writes-meaning delete cmd f key h = absurd cc
no_writes-meaning delete_prefix cmd f key h = absurd cc
no_writes-meaning (other _) cmd f key h = refl

module _ {D : Type 0} (pebble : Database D) (content_of : D → Content)
    (laws : IsDatabase pebble content_of) where
  unfoldable pub held : Option D → Content
  held none key = none
  held (some d) key = content_of d key

  -- What the store holds under its keys; a store that is not open holds nothing.
  unfoldable pub store_content : PebbleStore D → Content
  unfolding held
  store_content s = held s.db

  -- On keys without a byte 0xFF the store holds what the machine holds.
  abbrev pub Agrees : MemoryStateMachine → PebbleStore D → Type 0
  Agrees m s = (key : Bytes) → IsClean key → content m key ≡ store_content s key

  pub store_content-some :
      (s : PebbleStore D) {d : D} (key : Bytes)
      → s.db ≡ some d
      → store_content s key ≡ content_of d key
  unfolding store_content
  store_content-some s key h = rw h

  pub require_db_ok : (s : PebbleStore D) {d : D} → require_db s ≡ ok d → s.db ≡ some d
  unfolding require_db opened
  require_db_ok s h = opened_ok s.db h
    where
      opened_ok : (o : Option D) {d : D} → opened o ≡ ok d → o ≡ some d
      opened_ok none h = absurd cc
      opened_ok (some d) h = ap some (cc h)

  commit_writes-content :
      (s : PebbleStore D) (d : D) (cmd : Command) (key : Bytes) (o : Option (List Write))
      {s' : PebbleStore D} {n : ℕ}
      → IsClean key
      → s.db ≡ some d
      → apply_writes cmd.operation cmd ≡ o
      → commit_writes pebble s d o ≡ ok (s', n)
      → store_content s' key ≡ meaning cmd.operation cmd (store_content s) key
  unfolding commit_writes
  commit_writes-content s d cmd key none {s'} c q w h =
      let same : s ≡ s' = cc h in
      subst (λ u. store_content u key ≡ meaning cmd.operation cmd (store_content s) key) same
        (sym (no_writes-meaning cmd.operation cmd (store_content s) key w))
  commit_writes-content s d cmd key (some ws) {s'} c q w h =
      let (d', hd, hs) = bind-eq-ok (pebble.commit d ws) _ h in
      let same : s'.db ≡ some d' =
        let whole : record { db = some d' } ≡ s' = cc hs in
        ap (λ (u : PebbleStore D). u.db) (sym whole) in
      store_content-some s' key same
      ∙ laws.commit-content d ws hd key
      ∙ writes-meaning cmd.operation cmd (content_of d) key c w
      ∙ meaning_cong cmd.operation cmd (content_of d) (store_content s) key
          (sym (store_content-some s key q))

  pub apply_command-content :
      (s : PebbleStore D) (cmd : Command) (key : Bytes) {s' : PebbleStore D} {n : ℕ}
      → IsClean key
      → apply_command pebble s cmd ≡ ok (s', n)
      → store_content s' key ≡ meaning cmd.operation cmd (store_content s) key
  unfolding apply_command
  apply_command-content s cmd key c h =
      let (d, hd, h1) = bind-eq-ok (require_db s) _ h in
      commit_writes-content s d cmd key (apply_writes cmd.operation cmd) c (require_db_ok s hd) refl
        h1

  -- Where the Pebble store and the memory machine agree, they agree after any command that the
  -- store applies without an error, on every key without a byte 0xFF.
  pub apply_command-Agrees :
      (m : MemoryStateMachine) (s : PebbleStore D) (cmd : Command) {s' : PebbleStore D} {n : ℕ}
      → Agrees m s
      → apply_command pebble s cmd ≡ ok (s', n)
      → Agrees (apply m cmd).0 s'
  apply_command-Agrees m s cmd a h key c =
      apply-content m cmd key
      ∙ meaning_cong cmd.operation cmd (content m) (store_content s) key (a key c)
      ∙ sym (apply_command-content s cmd key c h)
