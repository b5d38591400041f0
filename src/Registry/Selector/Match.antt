-- ===== src/Registry/Selector/Match.antt =====
-- What a selector means for the labels of an instance, and that the matcher agrees.
use stellmap_service.Base.{
  ◌≡◌, ◌≢◌, ◌↔◌, ◌⊎◌, inl, inr, refl, ap, ◌∙◌, subst, Bool, true, false, not, List, [], ◌∷◌, Option,
  none, some, arith, Bool-cases, length, All,
}
use stellmap_service.Registry.Selector.{
  equals_first, contains_string, matches_operator, matches_label_requirement,
  matches_label_selector, and_then,
}
use stellmap_service.Registry.Types.{
  exists, not_exists, equals, not_equals, in_set, not_in_set, StringMap, Operator, Requirement,
  Selector,
}
use stellmap_service.Text.{Bytes, eqb}
use stellmap_service.Text.Split.{eqb_iff}
use stellmap_service.GoMap.{lookup}

abbrev pub Among : Bytes → List Bytes → Type 0
Among v [] = false ≡ true
Among v (w ∷ ws) = (w ≡ v) ⊎ Among v ws

-- The values that an operator comes with.
abbrev pub IsShaped : Operator → List Bytes → Type 0
IsShaped exists vs = vs ≡ []
IsShaped not_exists vs = vs ≡ []
IsShaped equals vs = length vs ≡ 1
IsShaped not_equals vs = length vs ≡ 1
IsShaped in_set vs = vs ≢ []
IsShaped not_in_set vs = vs ≢ []

-- A requirement with a key, of values that its operator can have, none of them empty.
pub record IsRequirement (r : Requirement) : Type 0 where
  pub key_ne_nil : r.key ≢ []
  pub shaped : IsShaped r.operator r.values
  pub values_ne_nil : All (λ v. v ≢ []) r.values

-- What an operator says of the label that is found under its key.
abbrev Says : Operator → List Bytes → Option Bytes → Type 0
Says exists vs found = found ≢ none
Says not_exists vs found = found ≡ none
Says equals vs found = (v : Bytes) × (found ≡ some v) × Among v vs
Says not_equals vs found = (v : Bytes) → found ≡ some v → ¬ Among v vs
Says in_set vs found = (v : Bytes) × (found ≡ some v) × Among v vs
Says not_in_set vs found = (v : Bytes) → found ≡ some v → ¬ Among v vs

abbrev pub Holds : StringMap → Requirement → Type 0
Holds labels r = Says r.operator r.values (lookup r.key labels)

Among-contains_string : (v : Bytes) (vs : List Bytes) → (contains_string vs v ≡ true) ↔ Among v vs
unfolding contains_string
Among-contains_string v [] = (λ h. h, λ h. h)
Among-contains_string v (w ∷ ws) =
    let ih = Among-contains_string v ws in
    let same = eqb_iff w v in
    (
      λ h. elim (Bool-cases (eqb w v)) [
        | inl e ↦ inl (same.0 e)
        | inr e ↦ inr (ih.0 (ground arith))
      ],
      λ a. elim a [ inl e ↦ rw (same.1 e) | inr e ↦ rw (ih.1 e) (ground arith) ],
    )

-- A test that does not panic, and is true exactly if `P` holds.
abbrev pub Decides : Option Bool → Type 0 → Type 0
Decides r P = (b : Bool) × (r ≡ some b) × ((b ≡ true) ↔ P)

equals_first-one :
    (v : Bytes) (vs : List Bytes) → length vs ≡ 1 → equals_first vs v ≡ some (contains_string vs v)
unfolding equals_first contains_string
equals_first-one v [] h = absurd (omega arith)
equals_first-one v (w ∷ []) h =
    let flip : eqb v w ≡ eqb w v = ground (arith, eqb_iff v w, eqb_iff w v) in
    ap some (flip ∙ ground arith)
equals_first-one v (w ∷ u ∷ r) h = absurd (omega arith)

in_Decides :
    (vs : List Bytes) (v : Bytes) → Decides (some (contains_string vs v)) (Says in_set vs (some v))
in_Decides vs v =
    let among = Among-contains_string v vs in
    (
      contains_string vs v,
      refl,
      (
        (λ h. (v, refl, among.0 h)),
        λ (w, q, a). let same : w ≡ v = cc q in among.1 (subst (λ u. Among u vs) same a),
      ),
    )

not_in_Decides :
    (vs : List Bytes) (v : Bytes)
    → Decides (some (not (contains_string vs v))) (Says not_in_set vs (some v))
not_in_Decides vs v =
    let among = Among-contains_string v vs in
    (
      not (contains_string vs v),
      refl,
      (
        (λ h w q a.
            let same : w ≡ v = cc q in
            let found = among.1 (subst (λ u. Among u vs) same a) in ground arith),
        λ f. elim (Bool-cases (contains_string vs v)) [
          | inl e ↦ absurd (f v refl (among.0 e))
          | inr e ↦ rw e
        ],
      ),
    )

matches_operator-Decides :
    (op : Operator) (vs : List Bytes) (found : Option Bytes)
    → IsShaped op vs
    → Decides (matches_operator op vs found) (Says op vs found)
unfolding matches_operator
matches_operator-Decides exists vs none h = (false, refl, ((λ e. absurd cc), λ p. absurd (p refl)))
matches_operator-Decides exists vs (some v) h = (true, refl, ((λ e q. absurd cc), λ p. refl))
matches_operator-Decides not_exists vs none h = (true, refl, ((λ e. refl), λ p. refl))
matches_operator-Decides not_exists vs (some v) h =
    (false, refl, ((λ e. absurd cc), λ p. absurd cc))
matches_operator-Decides equals vs none h =
    (false, refl, ((λ e. absurd cc), λ (w, q, a). absurd cc))
matches_operator-Decides equals vs (some v) h = rw (equals_first-one v vs h) (in_Decides vs v)
matches_operator-Decides not_equals vs none h = (true, refl, ((λ e w q a. absurd cc), λ p. refl))
matches_operator-Decides not_equals vs (some v) h =
    rw (matches_operator, equals_first-one v vs h) (not_in_Decides vs v)
matches_operator-Decides in_set vs none h =
    (false, refl, ((λ e. absurd cc), λ (w, q, a). absurd cc))
matches_operator-Decides in_set vs (some v) h = in_Decides vs v
matches_operator-Decides not_in_set vs none h = (true, refl, ((λ e w q a. absurd cc), λ p. refl))
matches_operator-Decides not_in_set vs (some v) h = not_in_Decides vs v

pub and_then-Decides :
    {P Q : Type 0} (r rest : Option Bool)
    → Decides r P
    → Decides rest Q
    → Decides (and_then r rest) (P × Q)
unfolding and_then
and_then-Decides r rest (false, e, p) (c, d, q) =
    rw e (false, refl, ((λ h. absurd cc), λ (x, y). p.1 x))
and_then-Decides r rest (true, e, p) (c, d, q) =
    rw (e, d) (c, refl, ((λ h. (p.0 refl, q.0 h)), λ (x, y). q.1 y))

-- On requirements of the right shape the matcher never panics, and answers true exactly if every
-- requirement holds of the labels: the key is there, is missing, has one of the values, or is
-- missing or has none of them.
pub matches_label_selector-Decides :
    (labels : StringMap) (rs : Selector)
    → All IsRequirement rs
    → Decides (matches_label_selector labels rs) (All (Holds labels) rs)
unfolding matches_label_selector matches_label_requirement
matches_label_selector-Decides labels [] h = (true, refl, ((λ e. tt), λ p. refl))
matches_label_selector-Decides labels (r ∷ rs) (h, hs) =
    and_then-Decides (matches_label_requirement labels r) (matches_label_selector labels rs)
      (matches_operator-Decides r.operator r.values (lookup r.key labels) h.shaped)
      (matches_label_selector-Decides labels rs hs)
