-- ===== src/Storage/Memory/Scan.antt =====
-- `Scan`: the entries in range, by ascending key, up to the limit.
pub mod Complete
use stellmap_service.Base.{
  ℕ, zero, suc, ◌+◌, ◌-◌, ◌*◌, ◌/◌, ◌%◌, ◌^◌, ◌≤◌, ◌<◌, ◌≡◌, ◌≢◌, ◌↔◌, ◌⊎◌, inl, inr, refl, sym, ap,
  ap₂, ◌∙◌, subst, fun_ext, Bool, true, false, not, ◌&&◌, ◌||◌, List, [], ◌∷◌, ◌++◌, map, reverse,
  append-nil, append_assoc, reverse-append, reverse-reverse, Option, none, some, arith, ltb, leb,
  ◌==◌, if◌then◌else◌, ==_refl, ==→eq, Bool-cases, Option-cases, &&-true, length, take, drop,
  get_last?, select, any, All, length-append, length-drop, take-append-drop, select-append,
  length-select, All-append, ℤ, pos, negsuc, pos_part, neg_part, sub_ℕ, ◌+ℤ◌, ◌≤ℤ◌, int_leb,
  IsInt64, wrap_int64, wrap_int64_of_IsInt64, wrap_int64-IsInt64, Result, ok, err, ◌>>=◌,
  bind-eq-ok,
}
use stellmap_service.Text.Split.{eqb_refl, eqb_iff}
use stellmap_service.Text.{Bytes, eqb}
use stellmap_service.GoMap.{lookup, IsMap}
use stellmap_service.Storage.Order.{lt_bytes, lt_bytes_trans, lt_bytes_total}
use stellmap_service.Storage.Memory.{
  insert_sorted, sort_strings, scan_keys, Kv, in_range, scan, MemoryStateMachine,
}

-- Each key is below all later ones.
abbrev pub Ascending : List Bytes → Type 0
Ascending [] = Unit
Ascending (k ∷ ks) = All (λ j. lt_bytes k j ≡ true) ks × Ascending ks

abbrev pub has_key : Bytes → List Bytes → Bool
has_key k ks = any (λ j. eqb j k) ks

has_key-insert_sorted :
    (k j : Bytes) (ks : List Bytes) → has_key j (insert_sorted k ks) ≡ (eqb k j || has_key j ks)
unfolding insert_sorted
has_key-insert_sorted k j [] = refl
has_key-insert_sorted k j (i ∷ ks) = ground (arith, has_key-insert_sorted k j ks)

pub has_key-sort_strings :
    (j : Bytes) (ks : List Bytes) → has_key j (sort_strings ks) ≡ has_key j ks
unfolding sort_strings
has_key-sort_strings j [] = refl
has_key-sort_strings j (k ∷ ks) =
    has_key-insert_sorted k j (sort_strings ks) ∙ rw (has_key-sort_strings j ks)

All-insert_sorted :
    (P : Bytes → Type 0) (k : Bytes) (ks : List Bytes) → P k → All P ks → All P (insert_sorted k ks)
unfolding insert_sorted
All-insert_sorted P k [] h a = (h, tt)
All-insert_sorted P k (j ∷ ks) h (x, a) = elim (Bool-cases (lt_bytes j k)) [
  | inl e ↦ rw e (x, All-insert_sorted P k ks h a)
  | inr e ↦ rw e (h, (x, a))
]

All-lt_trans :
    (k j : Bytes) (ks : List Bytes)
    → lt_bytes k j ≡ true
    → All (λ i. lt_bytes j i ≡ true) ks
    → All (λ i. lt_bytes k i ≡ true) ks
All-lt_trans k j [] h a = tt
All-lt_trans k j (i ∷ ks) h (x, a) = (lt_bytes_trans k j i h x, All-lt_trans k j ks h a)

insert_sorted-Ascending :
    (k : Bytes) (ks : List Bytes)
    → has_key k ks ≡ false
    → Ascending ks
    → Ascending (insert_sorted k ks)
unfolding insert_sorted
insert_sorted-Ascending k [] f a = (tt, tt)
insert_sorted-Ascending k (j ∷ ks) f (x, a) = elim (Bool-cases (lt_bytes j k)) [
  | inl e ↦ rw e (
    All-insert_sorted (λ i. lt_bytes j i ≡ true) k ks e x,
    insert_sorted-Ascending k ks (ground arith) a,
  )
  | inr e ↦
      let below : lt_bytes k j ≡ true = elim (Bool-cases (lt_bytes k j)) [
        | inl b ↦ b
        | inr b ↦ absurd (let q = lt_bytes_total k j b e in ground (arith, eqb_iff j k))
      ] in
      rw e ((below, All-lt_trans k j ks below x), (x, a))
]

abbrev pub keys : List (Bytes × Bytes) → List Bytes
keys m = map (λ e. e.0) m

pub has_key-keys :
    (k : Bytes) (m : List (Bytes × Bytes)) → lookup k m ≡ none → has_key k (keys m) ≡ false
unfolding lookup
has_key-keys k [] h = refl
has_key-keys k ((j, v) ∷ m) h = ground (arith, has_key-keys k m)

pub sort_keys-Ascending : (m : List (Bytes × Bytes)) → IsMap m → Ascending (sort_strings (keys m))
unfolding sort_strings
sort_keys-Ascending [] h = tt
sort_keys-Ascending ((k, v) ∷ m) (fresh, h) =
    insert_sorted-Ascending k (sort_strings (keys m))
      (has_key-sort_strings k (keys m) ∙ has_key-keys k m fresh) (sort_keys-Ascending m h)

-- what `Scan` returns for a key
abbrev pub item : List (Bytes × Bytes) → Bytes → Kv
item m k = record { key = k; value = elim (lookup k m) [ some value ↦ value | none ↦ [] ] }

-- No limit, or the first so many.
abbrev limited {ℓ} : {A : Type ℓ} → ℤ → List A → List A
limited (pos zero) xs = xs
limited (pos (suc n)) xs = take (suc n) xs
limited (negsuc n) xs = xs

scan_keys_unlimited :
    (m : List (Bytes × Bytes)) (start end : Bytes) (limit : ℤ) (n : ℕ) (ks : List Bytes)
    → limit ≤ℤ pos 0
    → scan_keys m start end limit n ks ≡ map (item m) (select (in_range start end) ks)
unfolding scan_keys
scan_keys_unlimited m start end limit n [] h = refl
scan_keys_unlimited m start end limit n (k ∷ ks) h =
    let none_set : int_leb limit (pos 0) ≡ true = ground arith in
    let ih = scan_keys_unlimited m start end limit n ks h in
    let ih' = scan_keys_unlimited m start end limit (n + 1) ks h in
    elim (Bool-cases (in_range start end k)) [ inl e ↦ rw (e, none_set, ih') | inr e ↦ rw (e, ih) ]

scan_keys_limited :
    (m : List (Bytes × Bytes)) (start end : Bytes) (limit n : ℕ) (ks : List Bytes)
    → scan_keys m start end (pos (suc (limit + n))) n ks
      ≡ take (suc limit) (map (item m) (select (in_range start end) ks))
unfolding scan_keys
scan_keys_limited m start end limit n [] = refl
scan_keys_limited m start end zero n (k ∷ ks) =
    let set : int_leb (pos (suc (0 + n))) (pos 0) ≡ false = ground arith in
    let full : int_leb (pos (suc (0 + n))) (pos (n + 1)) ≡ true = ground arith in
    elim (Bool-cases (in_range start end k)) [
      | inr e ↦ rw (e, scan_keys_limited m start end zero n ks)
      | inl e ↦ rw (e, set, full)
    ]
scan_keys_limited m start end (suc limit) n (k ∷ ks) =
    let set : int_leb (pos (suc (suc limit + n))) (pos 0) ≡ false = ground arith in
    let room : int_leb (pos (suc (suc limit + n))) (pos (n + 1)) ≡ false = ground arith in
    let size : suc limit + n ≡ limit + (n + 1) = omega arith in
    elim (Bool-cases (in_range start end k)) [
      | inr e ↦ rw (e, scan_keys_limited m start end (suc limit) n ks)
      | inl e ↦
          let ih : scan_keys m start end (pos (suc (suc limit + n))) (n + 1) ks
              ≡ take (suc limit) (map (item m) (select (in_range start end) ks)) =
            ap (λ (l : ℕ). scan_keys m start end (pos (suc l)) (n + 1) ks) size
            ∙ scan_keys_limited m start end limit (n + 1) ks in
          rw (e, set, room, ih)
    ]

-- the keys of the machine in range, by ascending order
abbrev pub keys_in_range : MemoryStateMachine → Bytes → Bytes → List Bytes
keys_in_range m start end = select (in_range start end) (sort_strings (map (λ e. e.0) m.entries))

-- `Scan` returns the entries in range by ascending key, the first `limit` of them if there is a
-- limit.
pub scan_lem :
    (m : MemoryStateMachine) (start end : Bytes) (limit : ℤ)
    → scan m start end limit ≡ limited limit (map (item m.entries) (keys_in_range m start end))
unfolding scan
scan_lem m start end (pos zero) = scan_keys_unlimited m.entries start end (pos 0) 0 _ (omega arith)
scan_lem m start end (pos (suc n)) =
    let size : n ≡ n + 0 = omega arith in
    ap
      (λ (l : ℕ).
        scan_keys m.entries start end (pos (suc l)) 0 (sort_strings (map (λ e. e.0) m.entries)))
      size
    ∙ scan_keys_limited m.entries start end n 0 _
scan_lem m start end (negsuc n) =
    scan_keys_unlimited m.entries start end (negsuc n) 0 _ (omega arith)

All-select :
    (P : Bytes → Type 0) (p : Bytes → Bool) (ks : List Bytes) → All P ks → All P (select p ks)
All-select P p [] a = tt
All-select P p (k ∷ ks) (x, a) =
    let ih = All-select P p ks a in
    elim (Bool-cases (p k)) [ inl e ↦ rw e (x, ih) | inr e ↦ rw e ih ]

pub Ascending-select : (p : Bytes → Bool) (ks : List Bytes) → Ascending ks → Ascending (select p ks)
Ascending-select p [] a = tt
Ascending-select p (k ∷ ks) (x, a) =
    let ih = Ascending-select p ks a in
    elim (Bool-cases (p k)) [
      | inl e ↦ rw e (All-select (λ j. lt_bytes k j ≡ true) p ks x, ih)
      | inr e ↦ rw e ih
    ]

-- The keys that a scan of a machine without duplicate keys visits ascend strictly.
pub keys_in_range-Ascending :
    (m : MemoryStateMachine) (start end : Bytes)
    → IsMap m.entries
    → Ascending (keys_in_range m start end)
keys_in_range-Ascending m start end h =
    Ascending-select (in_range start end) _ (sort_keys-Ascending m.entries h)
