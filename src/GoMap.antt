-- ===== src/GoMap.antt =====
-- Go's built-in map with string keys, as the list of its entries in the order in which `range`
-- visits them. A write to a key that is there replaces the value at its place.
use stellmap_service.Base.{
  ◌≡◌, inl, inr, refl, ◌∙◌, subst, Bool, List, [], ◌∷◌, Option, none, some, arith, if◌then◌else◌,
  Bool-cases,
}
use stellmap_service.Text.{Bytes, eqb}
use stellmap_service.Text.Split.{eqb_iff}

module _ {ℓ} {V : Type ℓ} where
  -- `value, ok := m[key]`
  unfoldable pub lookup : Bytes → List (Bytes × V) → Option V
  lookup k [] = none
  lookup k ((j, v) ∷ m) = if eqb j k then some v else lookup k m

  -- `m[key] = value`
  unfoldable pub insert : Bytes → V → List (Bytes × V) → List (Bytes × V)
  insert k v [] = (k, v) ∷ []
  insert k v ((j, w) ∷ m) = if eqb j k then (k, v) ∷ m else (j, w) ∷ insert k v m

  -- the loop `for key := range m { if p(key) { delete(m, key) } }`
  unfoldable pub delete_if : (Bytes → Bool) → List (Bytes × V) → List (Bytes × V)
  delete_if p [] = []
  delete_if p ((j, v) ∷ m) = let rest = delete_if p m in if p j then rest else (j, v) ∷ rest

  pub lookup-insert :
      (k j : Bytes) (v : V) (m : List (Bytes × V))
      → lookup j (insert k v m) ≡ (if eqb k j then some v else lookup j m)
  unfolding lookup insert
  lookup-insert k j v [] = refl
  lookup-insert k j v ((i, w) ∷ m) =
      ground (arith, eqb_iff k j, eqb_iff i k, eqb_iff i j, lookup-insert k j v m)

  pub lookup-delete_if :
      (p : Bytes → Bool) (j : Bytes) (m : List (Bytes × V))
      → lookup j (delete_if p m) ≡ (if p j then none else lookup j m)
  unfolding lookup delete_if
  lookup-delete_if p j [] = ground arith
  lookup-delete_if p j ((i, v) ∷ m) = elim (Bool-cases (eqb i j)) [
    | inl same ↦
        let q : i ≡ j = (eqb_iff i j).0 same in
        rw q (ground (arith, lookup-delete_if p j m, eqb_iff j j))
    | inr other ↦ ground (arith, lookup-delete_if p j m)
  ]

  -- No key stands twice.
  abbrev pub IsMap : List (Bytes × V) → Type ℓ
  IsMap [] = Unit
  IsMap ((k, v) ∷ m) = (lookup k m ≡ none) × IsMap m

  pub insert-IsMap : (k : Bytes) (v : V) (m : List (Bytes × V)) → IsMap m → IsMap (insert k v m)
  unfolding insert lookup
  insert-IsMap k v [] h = (refl, tt)
  insert-IsMap k v ((j, w) ∷ m) (fresh, h) = elim (Bool-cases (eqb j k)) [
    | inl e ↦ rw e (subst (λ i. lookup i m ≡ none) ((eqb_iff j k).0 e) fresh, h)
    | inr e ↦
        rw e
          (lookup-insert k j v m ∙ ground (arith, eqb_iff k j, eqb_iff j k), insert-IsMap k v m h)
  ]

  pub delete_if-IsMap : (p : Bytes → Bool) (m : List (Bytes × V)) → IsMap m → IsMap (delete_if p m)
  unfolding delete_if
  delete_if-IsMap p [] h = tt
  delete_if-IsMap p ((j, w) ∷ m) (fresh, h) = elim (Bool-cases (p j)) [
    | inl e ↦ rw e (delete_if-IsMap p m h)
    | inr e ↦ rw e (lookup-delete_if p j m ∙ rw (e, fresh), delete_if-IsMap p m h)
  ]
