-- ===== src/Registry/Query/Sets.antt =====
-- The lists of services and prefixes of a query: `normalizeStringSlice` and `appendUniqueString`.
use stellmap_service.Base.{
  ℕ, ◌+◌, ◌≡◌, inl, inr, ◌∙◌, Bool, not, ◌&&◌, List, [], ◌∷◌, arith, if◌then◌else◌, Bool-cases, any,
}
use stellmap_service.Text.{Bytes, eqb, trim}
use stellmap_service.Text.Split.{eqb_iff, eqb_refl}
use stellmap_service.Registry.Query.{unseen_values, normalize_string_slice}

abbrev occurrences : Bytes → List Bytes → ℕ
occurrences k [] = 0
occurrences k (x ∷ xs) = (if eqb x k then 1 else 0) + occurrences k xs

-- Whether a trimmed value of the list is the key.
abbrev is_given : Bytes → List Bytes → Bool
is_given k vs = any (λ v. eqb (trim v) k) vs

has_seen : Bytes → List Bytes → Bool
has_seen k seen = any (λ s. eqb s k) seen

occurrences-unseen_values :
    (k : Bytes) (seen vs : List Bytes)
    → occurrences k (unseen_values seen vs)
      ≡ (if not (eqb k []) && is_given k vs && not (has_seen k seen) then 1 else 0)
unfolding unseen_values has_seen
occurrences-unseen_values k seen [] = ground arith
occurrences-unseen_values k seen (v ∷ vs) =
    let skipped = occurrences-unseen_values k seen vs in
    let kept = occurrences-unseen_values k (trim v ∷ seen) vs in
    elim (Bool-cases (eqb (trim v) k)) [
      | inl same ↦
          let q : trim v ≡ k = (eqb_iff (trim v) k).0 same in
          rw q (
            let again = occurrences-unseen_values k (k ∷ seen) vs in
            elim (Bool-cases (eqb k [])) [
              | inl e ↦ rw e (skipped ∙ rw e)
              | inr e ↦ elim (Bool-cases (any (λ s. eqb s k) seen)) [
                | inl s ↦ rw (e, s) (skipped ∙ ground arith)
                | inr s ↦ rw (e, s) (ground (arith, eqb_refl k, again))
              ]
            ])
      | inr other ↦ ground (arith, eqb_iff (trim v) k, eqb_iff (trim v) [])
    ]

-- A text stands in the result of `normalizeStringSlice` once if it is not empty and is one of the values when they are
-- trimmed, and not at all otherwise.
occurrences-normalize_string_slice :
    (k : Bytes) (vs : List Bytes)
    → occurrences k (normalize_string_slice vs) ≡ (if not (eqb k []) && is_given k vs then 1 else 0)
unfolding normalize_string_slice has_seen
occurrences-normalize_string_slice k vs = occurrences-unseen_values k [] vs ∙ ground arith
