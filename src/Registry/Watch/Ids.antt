-- ===== src/Registry/Watch/Ids.antt =====
-- The ids of a hub's watchers: a list without repetition, what is removed from it and what is kept.
use stellmap_service.Base.{
  ℕ, ◌≡◌, inl, inr, refl, ap, ◌∙◌, Bool, false, not, ◌&&◌, List, [], ◌∷◌, arith, ◌==◌,
  if◌then◌else◌, ==_refl, ==→eq, Bool-cases, select,
}
use stellmap_service.Registry.Watch.{has_id, remove_id}

-- No id stands twice.
abbrev pub NodupIds : List ℕ → Type 0
NodupIds [] = Unit
NodupIds (id ∷ ids) = (has_id id ids ≡ false) × NodupIds ids

abbrev pub remove_ids : List ℕ → List ℕ → List ℕ
remove_ids [] watchers = watchers
remove_ids (id ∷ ids) watchers = remove_ids ids (remove_id id watchers)

pub has_id-remove_id :
    (id j : ℕ) (ids : List ℕ)
    → has_id j (remove_id id ids) ≡ (if j == id then false else has_id j ids)
has_id-remove_id id j [] = ground arith
has_id-remove_id id j (k ∷ ids) = ground (arith, has_id-remove_id id j ids)

pub remove_id_absent : (id : ℕ) (ids : List ℕ) → has_id id ids ≡ false → remove_id id ids ≡ ids
remove_id_absent id [] h = refl
remove_id_absent id (j ∷ ids) h = ground (arith, remove_id_absent id ids)

pub has_id-select :
    (p : ℕ → Bool) (j : ℕ) (ids : List ℕ) → has_id j (select p ids) ≡ (has_id j ids && p j)
has_id-select p j [] = refl
has_id-select p j (id ∷ ids) = elim (Bool-cases (id == j)) [
  | inl same ↦
      let q : id ≡ j = ==→eq id j same in rw q (ground (arith, has_id-select p j ids, ==_refl j))
  | inr other ↦ ground (arith, has_id-select p j ids)
]

pub NodupIds-select : (p : ℕ → Bool) (ids : List ℕ) → NodupIds ids → NodupIds (select p ids)
NodupIds-select p [] d = tt
NodupIds-select p (id ∷ ids) (fresh, d) =
    let rest = NodupIds-select p ids d in
    let fresh' = has_id-select p id ids in
    elim (Bool-cases (p id)) [ inl e ↦ rw e (ground arith, rest) | inr e ↦ rw e rest ]

remove_ids-cons :
    (id : ℕ) (ids watchers : List ℕ)
    → has_id id ids ≡ false
    → remove_ids ids (id ∷ watchers) ≡ id ∷ remove_ids ids watchers
remove_ids-cons id [] watchers h = refl
remove_ids-cons id (j ∷ ids) watchers h =
    let ne : (id == j) ≡ false = ground arith in
    rw ne (remove_ids-cons id ids (remove_id j watchers) (ground arith))

pub remove_ids-select :
    (p : ℕ → Bool) (ids : List ℕ)
    → NodupIds ids
    → remove_ids (select (λ id. not (p id)) ids) ids ≡ select p ids
remove_ids-select p [] d = refl
remove_ids-select p (id ∷ ids) (fresh, d) = elim (Bool-cases (p id)) [
  | inl e ↦
      rw
        (
          e,
          remove_ids-cons id (select (λ j. not (p j)) ids) ids
              (has_id-select (λ j. not (p j)) id ids ∙ ground arith),
        )
        (ap (◌∷◌ id) (remove_ids-select p ids d))
  | inr e ↦ rw (e, ==_refl id, remove_id_absent id ids fresh) (remove_ids-select p ids d)
]
