-- ===== src/Storage/Pebble/Metadata.antt =====
-- The numbers kept beside the data, what `Scan` shows, and the store that is not open.
use stellmap_service.Base.{
  ℕ, ◌^◌, ◌<◌, ◌≡◌, inl, inr, refl, sym, ap, ◌∙◌, subst, true, false, not, ◌&&◌, List, map, Option,
  none, some, arith, if◌then◌else◌, Bool-cases, ℤ, pos, ok, bind-eq-ok,
}
use stellmap_service.Text.{Bytes, eqb}
use stellmap_service.Text.Split.{eqb_iff, eqb_refl}
use stellmap_service.Storage.Pebble.{
  PebbleStore, is_meta_key, collect_items, found_number, require_db, scan_store, get_number,
  set_number, applied_index, set_applied_index, applied_term, meta_applied_index_key,
  meta_applied_term_key,
}
use stellmap_service.Storage.{Kv}
use stellmap_service.Storage.Uint64.{encode_uint64, decode-encode_uint64}
use stellmap_service.Storage.Memory.Laws.{Content}
use stellmap_service.Storage.Memory.Scan.{Ascending}
use stellmap_service.Storage.Memory.Scan.Complete.{find_item}
use stellmap_service.Storage.Pebble.Engine.{Database, IsDatabase, in_bounds}
use stellmap_service.Storage.Pebble.Laws.{store_content, store_content-some, require_db_ok}
use stellmap_service.Storage.Pebble.Restore.{find_item-collect_items, collect_items-Ascending}

index_key-term_key : eqb meta_applied_index_key meta_applied_term_key ≡ false
unfolding eqb
index_key-term_key = refl

pub is_meta_key-term_key : is_meta_key meta_applied_term_key ≡ true
unfolding is_meta_key eqb
is_meta_key-term_key = refl

pub is_meta_key-index_key : is_meta_key meta_applied_index_key ≡ true
unfolding is_meta_key eqb
is_meta_key-index_key = refl

pub meta_apart :
    (j key : Bytes) → is_meta_key j ≡ true → is_meta_key key ≡ false → eqb j key ≡ false
meta_apart j key h plain = elim (Bool-cases (eqb j key)) [
  | inl same ↦ absurd (let p = ap is_meta_key ((eqb_iff j key).0 same) in cc)
  | inr other ↦ other
]

found_encoded : (n : ℕ) → n < 2 ^ 64 → found_number (some (encode_uint64 n)) ≡ n
unfolding found_number
found_encoded n h = decode-encode_uint64 n h

module _ {D : Type 0} (pebble : Database D) (content_of : D → Content)
    (laws : IsDatabase pebble content_of) where
  abbrev pub held_in : PebbleStore D → Content
  held_in s = store_content pebble content_of laws s

  get_number-content :
      (s : PebbleStore D) (key : Bytes) {n : ℕ}
      → get_number pebble s key ≡ ok n
      → n ≡ found_number (held_in s key)
  unfolding get_number
  get_number-content s key h =
      let (d, hd, h1) = bind-eq-ok (require_db s) _ h in
      let (found, hf, h2) = bind-eq-ok (pebble.get d key) _ h1 in
      let here =
        store_content-some pebble content_of laws s key
          (require_db_ok pebble content_of laws s hd) in
      let value : found_number found ≡ _ = cc h2 in
      sym value ∙ ap found_number (laws.get-content d key hf ∙ sym here)

  pub set_number-content :
      (s : PebbleStore D) (key : Bytes) (n : ℕ) {s' : PebbleStore D}
      → set_number pebble s key n ≡ ok s'
      → (j : Bytes) → held_in s' j ≡ (if eqb key j then some (encode_uint64 n) else held_in s j)
  unfolding set_number
  set_number-content s key n {s'} h j =
      let (d, hd, h1) = bind-eq-ok (require_db s) _ h in
      let (d', hc, h2) = bind-eq-ok (pebble.commit d _) _ h1 in
      let whole : record { db = some d' } ≡ s' = cc h2 in
      let same : s'.db ≡ some d' = ap (λ (u : PebbleStore D). u.db) (sym whole) in
      let here =
        store_content-some pebble content_of laws s j (require_db_ok pebble content_of laws s hd) in
      store_content-some pebble content_of laws s' j same ∙ laws.commit-content d _ hc j ∙ rw here

  -- The applied index that is written is the one that is read, and neither the applied term nor a
  -- key outside the metadata changes with it, when no operation fails and the index is a `uint64`.
  pub applied_index-set_applied_index :
      (s : PebbleStore D) (n : ℕ) {s' : PebbleStore D} {m a b : ℕ}
      → n < 2 ^ 64
      → set_applied_index pebble s n ≡ ok s'
      → applied_index pebble s' ≡ ok m
      → applied_term pebble s ≡ ok a
      → applied_term pebble s' ≡ ok b
      → (m ≡ n)
        × (a ≡ b)
        × ((key : Bytes) → is_meta_key key ≡ false → held_in s' key ≡ held_in s key)
  unfolding set_applied_index applied_index applied_term
  applied_index-set_applied_index s n {s'} h hs hm ha hb =
      let wrote = set_number-content s meta_applied_index_key n hs in
      (
        get_number-content s' meta_applied_index_key hm
            ∙ ap found_number {y = some (encode_uint64 n)}
                (wrote meta_applied_index_key ∙ rw (eqb_refl meta_applied_index_key))
            ∙ found_encoded n h,
        get_number-content s meta_applied_term_key ha
            ∙ ap found_number (sym (wrote meta_applied_term_key ∙ rw index_key-term_key))
            ∙ sym (get_number-content s' meta_applied_term_key hb),
        λ key plain.
            wrote key ∙ rw (meta_apart meta_applied_index_key key is_meta_key-index_key plain),
      )

  -- `Scan` returns ascending keys; without a limit it holds exactly the keys within the bounds that
  -- are no metadata, each with its value.
  pub scan_store_lem :
      (s : PebbleStore D) (start end : Option Bytes) (limit : ℤ) {items : List Kv}
      → scan_store pebble s start end limit ≡ ok items
      → Ascending (map (λ (i : Kv). i.key) items)
        × (limit ≡ pos 0
            → (key : Bytes)
            → find_item key items
              ≡ (if in_bounds start end key && not (is_meta_key key) then held_in s key else none))
  unfolding scan_store
  scan_store_lem s start end limit {items} h =
      let (d, hd, h1) = bind-eq-ok (require_db s) _ h in
      let (es, he, h2) = bind-eq-ok (pebble.iterate d start end) _ h1 in
      let same : collect_items limit 0 es ≡ items = cc h2 in
      (
        subst (λ is. Ascending (map (λ (i : Kv). i.key) is)) same
            (collect_items-Ascending limit 0 es (laws.iterate-Ascending d start end he)),
        λ q key.
            let here =
              store_content-some pebble content_of laws s key
                (require_db_ok pebble content_of laws s hd) in
            ap (find_item key) (sym same)
            ∙ ap (λ (l : ℤ). find_item key (collect_items l 0 es)) q
            ∙ find_item-collect_items 0 es key
            ∙ rw (laws.iterate-content d start end he key, here) (ground arith),
      )
