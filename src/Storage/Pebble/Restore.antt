-- ===== src/Storage/Pebble/Restore.antt =====
-- `Restore` behind `Snapshot`: the data comes back, whatever the second store held.
use stellmap_service.Base.{
  ℕ, ◌+◌, ◌≡◌, inl, inr, refl, sym, ap, ◌∙◌, subst, true, false, not, ◌&&◌, List, [], ◌∷◌, ◌++◌,
  map, none, some, arith, ltb, if◌then◌else◌, Bool-cases, All, ℤ, pos, int_leb, ok, bind-eq-ok,
}
use stellmap_service.Text.{Bytes, eqb}
use stellmap_service.Text.Split.{eqb_iff}
use stellmap_service.GoMap.{lookup}
use stellmap_service.Storage.{Kv, MemberAddress}
use stellmap_service.Storage.Order.{lt_bytes, lt_bytes_irrefl, lt_bytes_trans}
use stellmap_service.Storage.Memory.Laws.{Content}
use stellmap_service.Storage.Memory.Scan.{Ascending}
use stellmap_service.Storage.Memory.Scan.Complete.{find_item}
use stellmap_service.Storage.Pebble.Engine.{
  Database, IsDatabase, Json, IsJson, IsPlain, Write, set, write_one, write_all,
}
use stellmap_service.Storage.Pebble.{
  PebbleStore, is_meta_key, collect_items, insert_item, sort_items, insert_member, sort_members,
  remove_data, remove_all, set_items, set_members, payload_of, decode_snapshot_payload, scan_store,
  list_member_addresses, snapshot, restore, require_db, meta_members_prefix, member_prefix_end,
}
use stellmap_service.Storage.Pebble.Laws.{store_content, store_content-some, require_db_ok}
use stellmap_service.Storage.Pebble.Snapshot.{
  write_all-append, remove_all-none, remove_data-content, set_members-content,
}

abbrev keys_of : List Kv → List Bytes
keys_of is = map (λ (i : Kv). i.key) is

set_items_absent :
    (is : List Kv) (f : Content) (key : Bytes)
    → find_item key is ≡ none
    → write_all (set_items is) f key ≡ f key
unfolding set_items
set_items_absent [] f key h = refl
set_items_absent (i ∷ is) f key h = elim (Bool-cases (eqb i.key key)) [
  | inl same ↦ absurd (let q : some i.value ≡ none = rw same at h in cc)
  | inr other ↦ set_items_absent is (write_one (set i.key i.value) f) key (rw other at h) ∙ rw other
]

absent_above :
    (k : Bytes) (is : List Kv) → All (λ j. lt_bytes k j ≡ true) (keys_of is) → find_item k is ≡ none
absent_above k [] a = refl
absent_above k (i ∷ is) (x, a) = elim (Bool-cases (eqb i.key k)) [
  | inl same ↦ absurd (let p = (eqb_iff i.key k).0 same in let q = lt_bytes_irrefl k in cc)
  | inr other ↦ rw other (absent_above k is a)
]

set_items-content :
    (is : List Kv) (f : Content) (key : Bytes)
    → Ascending (keys_of is)
    → f key ≡ none
    → write_all (set_items is) f key ≡ find_item key is
unfolding set_items
set_items-content [] f key a h = h
set_items-content (i ∷ is) f key (x, a) h = elim (Bool-cases (eqb i.key key)) [
  | inl same ↦
      let absent : find_item key is ≡ none =
        subst (λ k. find_item k is ≡ none) ((eqb_iff i.key key).0 same) (absent_above i.key is x) in
      set_items_absent is (write_one (set i.key i.value) f) key absent ∙ rw same
  | inr other ↦
      let kept : write_one (set i.key i.value) f key ≡ none = rw other h in
      set_items-content is (write_one (set i.key i.value) f) key a kept ∙ rw other
]

-- A scan without a limit has every item that is no metadata.
pub find_item-collect_items :
    (n : ℕ) (es : List (Bytes × Bytes)) (key : Bytes)
    → find_item key (collect_items (pos 0) n es) ≡ (if is_meta_key key then none else lookup key es)
unfolding collect_items lookup
find_item-collect_items n [] key = ground arith
find_item-collect_items n ((j, v) ∷ es) key = elim (Bool-cases (eqb j key)) [
  | inl same ↦
      let p : is_meta_key j ≡ is_meta_key key = ap is_meta_key ((eqb_iff j key).0 same) in
      elim (Bool-cases (is_meta_key key)) [
        | inl meta ↦ rw (p, meta) (find_item-collect_items n es key ∙ rw meta)
        | inr plain ↦ rw (p, plain, same)
      ]
  | inr other ↦ elim (Bool-cases (is_meta_key j)) [
    | inl meta ↦ rw (meta, other) (find_item-collect_items n es key)
    | inr plain ↦ rw (plain, other) (find_item-collect_items (n + 1) es key)
  ]
]

All-collect_items :
    (P : Bytes → Type 0) (limit : ℤ) (n : ℕ) (es : List (Bytes × Bytes))
    → All P (map (λ e. e.0) es)
    → All P (keys_of (collect_items limit n es))
unfolding collect_items
All-collect_items P limit n [] a = tt
All-collect_items P limit n ((j, v) ∷ es) (x, a) = elim (Bool-cases (is_meta_key j)) [
  | inl meta ↦ rw meta (All-collect_items P limit n es a)
  | inr plain ↦ elim (Bool-cases (not (int_leb limit (pos 0)) && int_leb limit (pos (n + 1)))) [
    | inl full ↦ rw (plain, full) (x, tt)
    | inr room ↦ rw (plain, room) (x, All-collect_items P limit (n + 1) es a)
  ]
]

pub collect_items-Ascending :
    (limit : ℤ) (n : ℕ) (es : List (Bytes × Bytes))
    → Ascending (map (λ e. e.0) es)
    → Ascending (keys_of (collect_items limit n es))
unfolding collect_items
collect_items-Ascending limit n [] a = tt
collect_items-Ascending limit n ((j, v) ∷ es) (x, a) = elim (Bool-cases (is_meta_key j)) [
  | inl meta ↦ rw meta (collect_items-Ascending limit n es a)
  | inr plain ↦ elim (Bool-cases (not (int_leb limit (pos 0)) && int_leb limit (pos (n + 1)))) [
    | inl full ↦ rw (plain, full) (tt, tt)
    | inr room ↦
        rw (plain, room)
          (
            All-collect_items (λ i. lt_bytes j i ≡ true) limit (n + 1) es x,
            collect_items-Ascending limit (n + 1) es a,
          )
  ]
]

-- What ascends stays as it is when it is sorted.
sort_items-Ascending : (is : List Kv) → Ascending (keys_of is) → sort_items is ≡ is
unfolding sort_items
sort_items-Ascending [] a = refl
sort_items-Ascending (i ∷ is) (x, a) =
    ap (insert_item i) (sort_items-Ascending is a) ∙ insert_below i is x
  where
    insert_below :
        (i : Kv) (is : List Kv)
        → All (λ j. lt_bytes i.key j ≡ true) (keys_of is)
        → insert_item i is ≡ i ∷ is
    insert_below i [] x = refl
    insert_below i (j ∷ js) (y, x) = elim (Bool-cases (lt_bytes j.key i.key)) [
      | inl e ↦
          absurd
            (let q = lt_bytes_trans i.key j.key i.key y e in let r = lt_bytes_irrefl i.key in cc)
      | inr e ↦ rw (insert_item, e)
    ]

All-insert_member :
    (P : MemberAddress → Type 0) (m : MemberAddress) (ms : List MemberAddress)
    → P m
    → All P ms
    → All P (insert_member m ms)
unfolding insert_member
All-insert_member P m [] h a = (h, tt)
All-insert_member P m (n ∷ ns) h (x, a) = elim (Bool-cases (ltb n.node_id m.node_id)) [
  | inl e ↦ rw e (x, All-insert_member P m ns h a)
  | inr e ↦ rw e (h, (x, a))
]

All-sort_members :
    (P : MemberAddress → Type 0) (ms : List MemberAddress) → All P ms → All P (sort_members ms)
unfolding sort_members
All-sort_members P [] a = tt
All-sort_members P (m ∷ ms) (x, a) =
    All-insert_member P m (sort_members ms) x (All-sort_members P ms a)

payload_of-decoded :
    (json : Json) (raw : Bytes) (items : List Kv) (members : List MemberAddress)
    {payload : List Kv × List MemberAddress}
    → json.decode_payload raw ≡ some (items, members)
    → decode_snapshot_payload json raw ≡ ok payload
    → (items, members) ≡ payload
unfolding decode_snapshot_payload payload_of
payload_of-decoded json raw items members h q =
    let r : payload_of json (some (items, members)) (json.decode_items raw) ≡ ok _ = rw h at q in
    cc r

module _ {D : Type 0} (pebble : Database D) (content_of : D → Content) (json : Json)
    (laws : IsDatabase pebble content_of) (json_laws : IsJson json) where
  abbrev pub held_by : PebbleStore D → Content
  held_by s = store_content pebble content_of laws s

  -- what `Snapshot` scans
  scan_store_all :
      (s : PebbleStore D) (key : Bytes) {items : List Kv}
      → scan_store pebble s none none (pos 0) ≡ ok items
      → (find_item key items ≡ (if is_meta_key key then none else held_by s key))
        × Ascending (keys_of items)
  unfolding scan_store
  scan_store_all s key {items} h =
      let (d, hd, h1) = bind-eq-ok (require_db s) _ h in
      let (es, he, h2) = bind-eq-ok (pebble.iterate d none none) _ h1 in
      let same : collect_items (pos 0) 0 es ≡ items = cc h2 in
      let read : lookup key es ≡ content_of d key = laws.iterate-content d none none he key in
      let here =
        store_content-some pebble content_of laws s key
          (require_db_ok pebble content_of laws s hd) in
      (
        ap (find_item key) (sym same) ∙ find_item-collect_items 0 es key ∙ rw (read, here),
        subst (λ is. Ascending (keys_of is)) same
            (collect_items-Ascending (pos 0) 0 es (laws.iterate-Ascending d none none he)),
      )

  -- A batch that removes the data and the members and sets a payload leaves the payload's items.
  restored-content :
      (d : D) (es members : List (Bytes × Bytes)) (items : List Kv) (ms : List MemberAddress)
      (key : Bytes)
      → is_meta_key key ≡ false
      → lookup key es ≡ content_of d key
      → Ascending (keys_of items)
      → write_all
          (remove_data es ++ (remove_all members ++ (set_items items ++ set_members json ms)))
          (content_of d)
          key
        ≡ find_item key items
  restored-content d es members items ms key plain read asc =
      let removals : List Write = remove_data es in
      let gone : Content = write_all (remove_all members) (write_all removals (content_of d)) in
      let nothing : gone key ≡ none =
        remove_all-none members (write_all removals (content_of d)) key
          (remove_data-content es (content_of d) key plain read) in
      rw
        (
          write_all-append removals (remove_all members ++ (set_items items ++ set_members json ms))
              (content_of d),
          write_all-append (remove_all members) (set_items items ++ set_members json ms)
              (write_all removals (content_of d)),
          write_all-append (set_items items) (set_members json ms) gone,
        )
        (set_members-content json ms (write_all (set_items items) gone) key plain
          ∙ set_items-content items gone key asc nothing)

  -- The data of a store comes back from its snapshot: what `Snapshot` writes of a store whose member
  -- addresses are ASCII, restored into any store without an error, gives each key outside the
  -- metadata what it has in the first store, and removes every other one.
  pub restore-snapshot :
      (s t : PebbleStore D) {bytes : Bytes} {t' : PebbleStore D}
      → ((ms : List MemberAddress) → list_member_addresses pebble json s ≡ ok ms → All IsPlain ms)
      → snapshot pebble json s ≡ ok bytes
      → restore pebble json t bytes ≡ ok t'
      → (key : Bytes) → is_meta_key key ≡ false
      → held_by t' key ≡ held_by s key
  unfolding snapshot restore
  restore-snapshot s t {bytes} {t'} p hs ht key plain =
      let (items, hi, hs1) = bind-eq-ok (scan_store pebble s none none (pos 0)) _ hs in
      let (members, hm, hs2) = bind-eq-ok (list_member_addresses pebble json s) _ hs1 in
      let written : json.encode_payload (sort_items items) (sort_members members) ≡ bytes =
        cc hs2 in
      let decoded : json.decode_payload bytes ≡ some (sort_items items, sort_members members) =
        ap json.decode_payload (sym written)
        ∙ json_laws.decode_payload-encode_payload (sort_items items) (sort_members members)
            (All-sort_members IsPlain members (p members hm)) in
      let (d, hd, ht1) = bind-eq-ok (require_db t) _ ht in
      let (payload, hp, ht2) = bind-eq-ok (decode_snapshot_payload json bytes) _ ht1 in
      let (es, he, ht3) = bind-eq-ok (pebble.iterate d none none) _ ht2 in
      let (old, ho, ht4) =
        bind-eq-ok (pebble.iterate d (some meta_members_prefix) (some member_prefix_end)) _ ht3 in
      let (d', hc, ht5) = bind-eq-ok (pebble.commit d _) _ ht4 in
      let whole : record { db = some d' } ≡ t' = cc ht5 in
      let same : t'.db ≡ some d' = ap (λ (u : PebbleStore D). u.db) (sym whole) in
      let (found, asc) = scan_store_all s key hi in
      let sorted : sort_items items ≡ items = sort_items-Ascending items asc in
      let got : (sort_items items, sort_members members) ≡ payload =
        payload_of-decoded json bytes (sort_items items) (sort_members members) decoded hp in
      let got_items : payload.0 ≡ items =
        ap (λ (q : List Kv × List MemberAddress). q.0) (sym got) ∙ sorted in
      store_content-some pebble content_of laws t' key same
      ∙ laws.commit-content d _ hc key
      ∙ restored-content d es old payload.0 payload.1 key plain
          (laws.iterate-content d none none he key)
          (subst (λ is. Ascending (keys_of is)) (sym got_items) asc)
      ∙ ap (find_item key) got_items
      ∙ found
      ∙ rw plain
