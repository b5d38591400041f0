-- ===== src/Storage/Memory/Scan/Complete.antt =====
-- What a scan without a limit holds, key by key.
use stellmap_service.Base.{
  ◌≡◌, inl, inr, refl, ap, ◌∙◌, true, false, ◌&&◌, List, [], ◌∷◌, map, Option, none, some, arith,
  if◌then◌else◌, Bool-cases, Option-cases, select, pos,
}
use stellmap_service.Text.Split.{eqb_refl, eqb_iff}
use stellmap_service.Text.{Bytes, eqb}
use stellmap_service.GoMap.{lookup}
use stellmap_service.Storage.{Kv}
use stellmap_service.Storage.Memory.{sort_strings, in_range, scan, MemoryStateMachine}
use stellmap_service.Storage.Memory.Scan.{
  has_key, keys, item, keys_in_range, scan_lem, has_key-sort_strings, has_key-keys,
}

-- The first item with the key.
abbrev pub find_item : Bytes → List Kv → Option Bytes
find_item k [] = none
find_item k (i ∷ is) = if eqb i.key k then some i.value else find_item k is

item-value :
    (m : List (Bytes × Bytes)) (k : Bytes) {v : Bytes} → lookup k m ≡ some v → (item m k).value ≡ v
item-value m k h = rw (item, h)

find_item-map :
    (m : List (Bytes × Bytes)) (start end k : Bytes) (ks : List Bytes) {v : Bytes}
    → lookup k m ≡ some v
    → find_item k (map (item m) (select (in_range start end) ks))
      ≡ (if has_key k ks && in_range start end k then some v else none)
find_item-map m start end k [] h = refl
find_item-map m start end k (j ∷ ks) h = elim (Bool-cases (eqb j k)) [
  | inl same ↦ rw ((eqb_iff j k).0 same) (elim (Bool-cases (in_range start end k)) [
    | inl e ↦ rw (e, eqb_refl k, item-value m k h)
    | inr e ↦ rw (e, find_item-map m start end k ks h) (ground arith)
  ])
  | inr other ↦ elim (Bool-cases (in_range start end j)) [
    | inl e ↦ rw (e, other) (find_item-map m start end k ks h)
    | inr e ↦ rw (e, other) (find_item-map m start end k ks h)
  ]
]

find_item_absent :
    (m : List (Bytes × Bytes)) (start end k : Bytes) (ks : List Bytes)
    → has_key k ks ≡ false
    → find_item k (map (item m) (select (in_range start end) ks)) ≡ none
find_item_absent m start end k [] h = refl
find_item_absent m start end k (j ∷ ks) h =
    let ne : eqb j k ≡ false = ground arith in
    let ih = find_item_absent m start end k ks (ground arith) in
    elim (Bool-cases (in_range start end j)) [ inl e ↦ rw (e, ne) ih | inr e ↦ rw e ih ]

pub has_key-lookup :
    (k : Bytes) (m : List (Bytes × Bytes)) {v : Bytes}
    → lookup k m ≡ some v
    → has_key k (keys m) ≡ true
unfolding lookup
has_key-lookup k [] h = absurd cc
has_key-lookup k ((j, w) ∷ m) h = elim (Bool-cases (eqb j k)) [
  | inl same ↦ rw same
  | inr other ↦ rw other (has_key-lookup k m (rw other at h))
]

-- A scan without a limit holds exactly the entries of the machine whose keys are in range.
pub scan_complete :
    (m : MemoryStateMachine) (start end k : Bytes)
    → find_item k (scan m start end (pos 0))
      ≡ (if in_range start end k then lookup k m.entries else none)
scan_complete m start end k =
    let ks : List Bytes = sort_strings (keys m.entries) in
    scan_find_item ∙ elim (Option-cases (lookup k m.entries)) [
      | inl absent ↦
          find_item_absent m.entries start end k ks
            (has_key-sort_strings k (keys m.entries) ∙ has_key-keys k m.entries absent)
          ∙ rw absent (ground arith)
      | inr (v, present) ↦
          find_item-map m.entries start end k ks present
          ∙ rw
              (has_key-sort_strings k (keys m.entries), has_key-lookup k m.entries present, present)
              (ground arith)
    ]
  where
    scan_find_item :
        find_item k (scan m start end (pos 0))
        ≡ find_item k (map (item m.entries) (keys_in_range m start end))
    scan_find_item = ap (find_item k) (scan_lem m start end (pos 0))
