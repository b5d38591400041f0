-- ===== src/Tests/Database.antt =====
-- A database that keeps its entries in a map, which has the laws that the Pebble store asks for.
use stellmap_service.Base.{
  ◌≡◌, inl, inr, refl, sym, ap, ◌∙◌, subst, fun_ext, Bool, not, ◌&&◌, List, [], ◌∷◌, map, none,
  some, arith, if◌then◌else◌, Bool-cases, Option-cases, select, ok,
}
use stellmap_service.Text.{Bytes, eqb}
use stellmap_service.Text.Split.{eqb_iff}
use stellmap_service.GoMap.{
  lookup, insert, delete_if, lookup-insert, lookup-delete_if, IsMap, insert-IsMap, delete_if-IsMap,
}
use stellmap_service.Storage.Order.{lt_bytes}
use stellmap_service.Storage.Memory.{sort_strings}
use stellmap_service.Storage.Memory.Laws.{Content}
use stellmap_service.Storage.Memory.Scan.{
  Ascending, Ascending-select, sort_keys-Ascending, has_key, keys, has_key-keys,
  has_key-sort_strings,
}
use stellmap_service.Storage.Memory.Scan.Complete.{has_key-lookup}
use stellmap_service.Storage.Pebble.Engine.{
  Database, IsDatabase, Write, set, remove, remove_range, in_bounds, write_one, write_all,
}

abbrev pub Entries : Type 0
Entries = (m : List (Bytes × Bytes)) × IsMap m

abbrev pub content_of : Entries → Content
content_of d key = lookup key d.0

-- the range that a deletion covers
abbrev covers : Bytes → Bytes → Bytes → Bool
covers low high k = not (lt_bytes k low) && lt_bytes k high

abbrev pub write_entry : Write → Entries → Entries
write_entry (set k v) (m, h) = (insert k v m, insert-IsMap k v m h)
write_entry (remove k) (m, h) = (delete_if (λ j. eqb j k) m, delete_if-IsMap (λ j. eqb j k) m h)
write_entry (remove_range low high) (m, h) =
    (delete_if (covers low high) m, delete_if-IsMap (covers low high) m h)

abbrev pub write_entries : List Write → Entries → Entries
write_entries [] d = d
write_entries (w ∷ ws) d = write_entries ws (write_entry w d)

abbrev value_at : List (Bytes × Bytes) → Bytes → Bytes
value_at m k = elim (lookup k m) [ some value ↦ value | none ↦ [] ]

abbrev visited : List (Bytes × Bytes) → List Bytes → List (Bytes × Bytes)
visited m ks = map (λ k. (k, value_at m k)) ks

abbrev pub map_database : Database Entries
map_database = record {
  open_database = ok ([], tt);
  get = λ d key. ok (lookup key d.0);
  iterate = λ d low high. ok (visited d.0 (select (in_bounds low high) (sort_strings (keys d.0))));
  commit = λ d ws. ok (write_entries ws d);
}

write_entry-content :
    (w : Write) (d : Entries) (key : Bytes)
    → content_of (write_entry w d) key ≡ write_one w (content_of d) key
write_entry-content (set k v) (m, h) key = lookup-insert k key v m
write_entry-content (remove k) (m, h) key =
    lookup-delete_if (λ j. eqb j k) key m ∙ ground (arith, eqb_iff k key, eqb_iff key k)
write_entry-content (remove_range low high) (m, h) key = lookup-delete_if (covers low high) key m

write_entries-content :
    (ws : List Write) (d : Entries) (key : Bytes)
    → content_of (write_entries ws d) key ≡ write_all ws (content_of d) key
write_entries-content [] d key = refl
write_entries-content (w ∷ ws) d key =
    write_entries-content ws (write_entry w d) key
    ∙ ap (λ (f : Content). write_all ws f key) (fun_ext (write_entry-content w d))

has_key-select :
    (p : Bytes → Bool) (key : Bytes) (ks : List Bytes)
    → has_key key (select p ks) ≡ (has_key key ks && p key)
has_key-select p key [] = refl
has_key-select p key (k ∷ ks) = elim (Bool-cases (eqb k key)) [
  | inl same ↦
      let q : p k ≡ p key = ap p ((eqb_iff k key).0 same) in
      elim (Bool-cases (p key)) [
        | inl e ↦ rw (q, e, same)
        | inr e ↦ rw (q, e) (has_key-select p key ks ∙ rw e (ground arith))
      ]
  | inr other ↦ elim (Bool-cases (p k)) [
    | inl e ↦ rw (e, other) (has_key-select p key ks)
    | inr e ↦ rw (e, other) (has_key-select p key ks)
  ]
]

lookup-visited :
    (m : List (Bytes × Bytes)) (key : Bytes) (ks : List Bytes)
    → lookup key (visited m ks) ≡ (if has_key key ks then some (value_at m key) else none)
unfolding lookup
lookup-visited m key [] = refl
lookup-visited m key (k ∷ ks) = elim (Bool-cases (eqb k key)) [
  | inl same ↦
      let q : value_at m k ≡ value_at m key = ap (value_at m) ((eqb_iff k key).0 same) in
      rw (same, q)
  | inr other ↦ rw other (lookup-visited m key ks)
]

keys-visited : (m : List (Bytes × Bytes)) (ks : List Bytes) → map (λ e. e.0) (visited m ks) ≡ ks
keys-visited m [] = refl
keys-visited m (k ∷ ks) = ap (◌∷◌ k) (keys-visited m ks)

visited-content :
    (m : List (Bytes × Bytes)) (p : Bytes → Bool) (key : Bytes)
    → lookup key (visited m (select p (sort_strings (keys m))))
      ≡ (if p key then lookup key m else none)
visited-content m p key =
    lookup-visited m key _
    ∙ rw (has_key-select p key (sort_strings (keys m)), has_key-sort_strings key (keys m))
        (elim (Option-cases (lookup key m)) [
          | inl absent ↦ rw (has_key-keys key m absent, absent) (ground arith)
          | inr (v, present) ↦ rw (has_key-lookup key m present, present) (ground arith)
        ])

visited-Ascending :
    (m : List (Bytes × Bytes)) (p : Bytes → Bool)
    → IsMap m
    → Ascending (map (λ e. e.0) (visited m (select p (sort_strings (keys m)))))
visited-Ascending m p h =
    subst Ascending (sym (keys-visited m (select p (sort_strings (keys m)))))
      (Ascending-select p (sort_strings (keys m)) (sort_keys-Ascending m h))

committed :
    (d : Entries) (ws : List Write) {d' : Entries}
    → map_database.commit d ws ≡ ok d'
    → d' ≡ write_entries ws d
committed d ws h = cc h

pub map_database-IsDatabase : IsDatabase map_database content_of
map_database-IsDatabase = record {
  get-content = λ d key h. sym (cc h);
  iterate-content = λ d low high h key.
      subst (λ es. lookup key es ≡ (if in_bounds low high key then content_of d key else none))
        (cc h) (visited-content d.0 (in_bounds low high) key);
  iterate-Ascending = λ d low high h.
      subst (λ es. Ascending (map (λ (e : Bytes × Bytes). e.0) es)) (cc h)
        (visited-Ascending d.0 (in_bounds low high) d.1);
  commit-content = λ d ws h key.
      ap (λ (e : Entries). content_of e key) (committed d ws h) ∙ write_entries-content ws d key;
}
