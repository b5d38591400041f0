-- ===== src/Registry/Cleanup/Paging/Keys.antt =====
-- The keys of a scan that starts behind a key (`nextScanStartAfter`).
use stellmap_service.Base.{
  ℕ, zero, suc, ◌≡◌, inl, inr, refl, ◌∙◌, subst, Bool, true, false, ◌&&◌, List, [], ◌∷◌, map, some,
  arith, Bool-cases, take, drop, get_last?, select, All, length-append,
}
use stellmap_service.Text.{Bytes}
use stellmap_service.GoMap.{IsMap}
use stellmap_service.Storage.Order.{lt_bytes, lt_bytes_irrefl, lt_bytes_trans, lt_bytes-successor}
use stellmap_service.Storage.Memory.{MemoryStateMachine, sort_strings, in_range}
use stellmap_service.Storage.Memory.Scan.{Ascending, keys_in_range, keys_in_range-Ascending}
use stellmap_service.Registry.Cleanup.{next_scan_start_after}

-- The keys above one key of an ascending list are those behind it.
select-All :
    (k : Bytes) (ks : List Bytes) → All (λ j. lt_bytes k j ≡ true) ks → select (lt_bytes k) ks ≡ ks
select-All k [] a = refl
select-All k (j ∷ ks) (x, a) = rw (x, select-All k ks a)

lt_bytes_asym : (k j : Bytes) → lt_bytes j k ≡ true → lt_bytes k j ≡ false
lt_bytes_asym k j h = elim (Bool-cases (lt_bytes k j)) [
  | inl e ↦ absurd (let q = lt_bytes_trans j k j h e in ground (arith, lt_bytes_irrefl j))
  | inr e ↦ e
]

get_last-All :
    (P : Bytes → Type 0) (ks : List Bytes) {k : Bytes} (n : ℕ)
    → All P ks
    → get_last? (take n ks) ≡ some k
    → P k
get_last-All P ks zero a h = absurd cc
get_last-All P [] (suc n) a h = absurd cc
get_last-All P (j ∷ []) (suc zero) (x, a) h = subst P (ground arith) x
get_last-All P (j ∷ []) (suc (suc n)) (x, a) h = subst P (ground arith) x
get_last-All P (j ∷ i ∷ ks) (suc zero) (x, a) h = subst P (ground arith) x
get_last-All P (j ∷ i ∷ ks) (suc (suc n)) (x, a) h = get_last-All P (i ∷ ks) (suc n) a h

select-drop :
    (ks : List Bytes) (n : ℕ) {k : Bytes}
    → Ascending ks
    → get_last? (take n ks) ≡ some k
    → select (lt_bytes k) ks ≡ drop n ks
select-drop [] (suc n) a h = refl
select-drop [] zero a h = refl
select-drop (j ∷ ks) zero a h = absurd cc
select-drop (j ∷ ks) (suc zero) {k} (x, a) h =
    let same : j ≡ k = ground arith in
    subst (λ i. select (lt_bytes i) (j ∷ ks) ≡ ks) same (rw (lt_bytes_irrefl j) (select-All j ks x))
select-drop (j ∷ []) (suc (suc n)) {k} (x, a) h =
    let same : j ≡ k = ground arith in
    subst (λ i. select (lt_bytes i) (j ∷ []) ≡ []) same (rw (lt_bytes_irrefl j))
select-drop (j ∷ i ∷ ks) (suc (suc n)) {k} (x, a) h =
    let above : lt_bytes j k ≡ true =
      get_last-All (λ l. lt_bytes j l ≡ true) (i ∷ ks) (suc n) x h in
    rw (lt_bytes_asym k j above) (select-drop (i ∷ ks) (suc n) a h)

-- A range that starts behind a key of a range holds the keys of that range above it.
in_range-successor :
    (start end k j : Bytes)
    → in_range start end k ≡ true
    → in_range (next_scan_start_after k) end j ≡ (in_range start end j && lt_bytes k j)
unfolding in_range next_scan_start_after
in_range-successor start end k j h =
    let longer = length-append k (0 ∷ []) in
    let next_up = lt_bytes-successor k j in let across = lt_bytes_trans k j start in ground arith

select-and :
    (p q r : Bytes → Bool) (ks : List Bytes)
    → ((j : Bytes) → r j ≡ (p j && q j))
    → select r ks ≡ select q (select p ks)
select-and p q r [] h = refl
select-and p q r (k ∷ ks) h = elim (Bool-cases (p k)) [
  | inl e ↦ elim (Bool-cases (q k)) [
    | inl f ↦ rw (h k, e, f, select-and p q r ks h)
    | inr f ↦ rw (h k, e, f, select-and p q r ks h)
  ]
  | inr e ↦ rw (h k, e, select-and p q r ks h)
]

select-passes : (p : Bytes → Bool) (ks : List Bytes) → All (λ j. p j ≡ true) (select p ks)
select-passes p [] = tt
select-passes p (k ∷ ks) = elim (Bool-cases (p k)) [
  | inl e ↦ rw e (e, select-passes p ks)
  | inr e ↦ rw e (select-passes p ks)
]

-- The keys from the successor of the last key of a page are those behind the page.
pub keys_in_range-drop :
    (m : MemoryStateMachine) (start end : Bytes) (n : ℕ) {k : Bytes}
    → IsMap m.entries
    → get_last? (take n (keys_in_range m start end)) ≡ some k
    → keys_in_range m (next_scan_start_after k) end ≡ drop n (keys_in_range m start end)
keys_in_range-drop m start end n {k} h e =
    let ks : List Bytes = sort_strings (map (λ e. e.0) m.entries) in
    let inside : in_range start end k ≡ true =
      get_last-All (λ j. in_range start end j ≡ true) (keys_in_range m start end) n
        (select-passes (in_range start end) ks) e in
    select-and (in_range start end) (lt_bytes k) (in_range (next_scan_start_after k) end) ks
      (λ j. in_range-successor start end k j inside)
    ∙ select-drop (keys_in_range m start end) n (keys_in_range-Ascending m start end h) e
