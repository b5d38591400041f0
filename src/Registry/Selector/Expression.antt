-- ===== src/Registry/Selector/Expression.antt =====
-- One selector expression, and one old label: what they parse to has the right shape.
use stellmap_service.Base.{
  ℕ, ◌+◌, ◌-◌, ◌≡◌, ◌≢◌, inl, inr, refl, ◌∙◌, subst, false, not, ◌||◌, List, [], ◌∷◌, some, arith,
  ltb, Bool-cases, Option-cases, length, take, drop, any, All, Result, ok, bind-eq-ok,
}
use stellmap_service.Text.{Bytes, eqb, trim, has_prefix, has_suffix, index, split, cut, codes}
use stellmap_service.Text.Split.{eqb_iff}
use stellmap_service.Registry.Types.{
  Operator, exists, not_exists, equals, not_equals, in_set, not_in_set, Requirement, SelectorError,
}
use stellmap_service.Registry.Selector.{
  parse_legacy_label, parse_binary_selector_expression, set_values, require_values,
  parse_set_selector_values, parse_values_text, parse_candidate, parse_set_selector_expression,
  parse_unary_selector_expression, parse_plain_selector_expression, parse_trimmed_expression,
  parse_selector_expression,
}
use stellmap_service.Registry.Selector.Match.{IsShaped, IsRequirement}

ne_nil : (s : Bytes) → eqb s [] ≡ false → s ≢ []
ne_nil s h q = ground (arith, eqb_iff s [])

one_value :
    (key value : Bytes) (op : Operator)
    → eqb key [] ≡ false
    → eqb value [] ≡ false
    → IsShaped op (value ∷ [])
    → IsRequirement (record { key = key; operator = op; values = value ∷ [] })
one_value key value op k v s = record {
  key_ne_nil = ne_nil key k;
  shaped = s;
  values_ne_nil = (ne_nil value v, tt);
}

pub parse_legacy_label-IsRequirement :
    (item : Bytes) {r : Requirement} → parse_legacy_label item ≡ ok r → IsRequirement r
unfolding parse_legacy_label
parse_legacy_label-IsRequirement item {r} h = elim (Option-cases (cut item b'=')) [
  | inl e ↦ absurd (let q = rw (parse_legacy_label, e) at h in cc)
  | inr (p, e) ↦
      let h1 = rw (parse_legacy_label, e) at h in
      elim (Bool-cases (eqb (trim p.0) [] || eqb (trim p.1) [])) [
        | inl bad ↦ absurd (let q = rw bad at h1 in cc)
        | inr good ↦
            let same : record { key = trim p.0; operator = equals; values = trim p.1 ∷ [] } ≡ r =
              cc (rw good at h1) in
            subst IsRequirement same
              (one_value (trim p.0) (trim p.1) equals (ground arith) (ground arith) refl)
      ]
]

parse_binary-IsRequirement :
    (e : Bytes) (i n : ℕ) (op : Operator) {r : Requirement}
    → ((v : Bytes) → IsShaped op (v ∷ []))
    → parse_binary_selector_expression e i n op ≡ ok r
    → IsRequirement r
unfolding parse_binary_selector_expression
parse_binary-IsRequirement e i n op {r} s h =
    let k : Bytes = trim (take i e) in
    let v : Bytes = trim (drop (i + n) e) in
    elim (Bool-cases (eqb k [] || eqb v [])) [
      | inl bad ↦ absurd (let q = rw bad at h in cc)
      | inr good ↦
          let same : record { key = k; operator = op; values = v ∷ [] } ≡ r = cc (rw good at h) in
          subst IsRequirement same (one_value k v op (ground arith) (ground arith) (s v))
    ]

set_values_ne_nil :
    (seen items : List Bytes) {vs : List Bytes}
    → set_values seen items ≡ ok vs
    → All (λ v. v ≢ []) vs
unfolding set_values
set_values_ne_nil seen [] {vs} h = let same : [] ≡ vs = cc h in subst (All (λ v. v ≢ [])) same tt
set_values_ne_nil seen (item ∷ items) {vs} h = elim (Bool-cases (eqb (trim item) [])) [
  | inl e ↦ absurd (let q = rw e at h in cc)
  | inr filled ↦
      let h1 = rw filled at h in
      elim (Bool-cases (any (λ s. eqb s (trim item)) seen)) [
        | inl old ↦ set_values_ne_nil seen items (rw old at h1)
        | inr new ↦
            let (rest, hr, hl) =
              bind-eq-ok (set_values (trim item ∷ seen) items) _ (rw new at h1) in
            let same : trim item ∷ rest ≡ vs = cc hl in
            subst (All (λ v. v ≢ [])) same
              (ne_nil (trim item) filled, set_values_ne_nil (trim item ∷ seen) items hr)
      ]
]

require_values_ne_nil :
    (ws : List Bytes) {vs : List Bytes}
    → require_values ws ≡ ok vs
    → All (λ v. v ≢ []) ws
    → (vs ≢ []) × All (λ v. v ≢ []) vs
unfolding require_values
require_values_ne_nil [] h a = absurd cc
require_values_ne_nil (w ∷ ws) {vs} h a =
    let same : w ∷ ws ≡ vs = cc h in
    subst (λ l. (l ≢ []) × All (λ v. v ≢ []) l) same ((λ q. absurd cc), a)

parse_set_selector_values_ne_nil :
    (raw : Bytes) {vs : List Bytes}
    → parse_set_selector_values raw ≡ ok vs
    → (vs ≢ []) × All (λ v. v ≢ []) vs
unfolding parse_set_selector_values
parse_set_selector_values_ne_nil raw {vs} h =
    let (ws, hs, hr) = bind-eq-ok (set_values [] (split raw b',')) _ h in
    require_values_ne_nil ws hr (set_values_ne_nil [] (split raw b',') hs)

parse_values_text_ne_nil :
    (text : Bytes) {vs : List Bytes}
    → parse_values_text text ≡ ok vs
    → (vs ≢ []) × All (λ v. v ≢ []) vs
unfolding parse_values_text
parse_values_text_ne_nil text h =
    elim (Bool-cases (not (has_prefix text (codes "(")) || not (has_suffix text (codes ")")))) [
      | inl bad ↦ absurd (let q = rw bad at h in cc)
      | inr good ↦
          parse_set_selector_values_ne_nil (take (length text - 2) (drop 1 text)) (rw good at h)
    ]

parse_candidate-IsRequirement :
    (e : Bytes) (i n : ℕ) (op : Operator) {r : Requirement}
    → ((vs : List Bytes) → vs ≢ [] → IsShaped op vs)
    → parse_candidate e i n op ≡ ok r
    → IsRequirement r
unfolding parse_candidate
parse_candidate-IsRequirement e i n op {r} s h =
    let k : Bytes = trim (take i e) in
    elim (Bool-cases (ltb (length e) i || eqb k [] || ltb (length e) (i + n))) [
      | inl bad ↦ absurd (ground arith)
      | inr good ↦
          let g1 : ltb (length e) i ≡ false = ground arith in
          let g2 : eqb k [] ≡ false = ground arith in
          let g3 : ltb (length e) (i + n) ≡ false = ground arith in
          let h1 = rw g3 at rw g2 at rw g1 at h in
          let (vs, hv, hr) = bind-eq-ok (parse_values_text (trim (drop (i + n) e))) _ h1 in
          let (ne, filled) = parse_values_text_ne_nil (trim (drop (i + n) e)) hv in
          let same : record { key = k; operator = op; values = vs } ≡ r = cc hr in
          subst IsRequirement same
            (record { key_ne_nil = ne_nil k g2; shaped = s vs ne; values_ne_nil = filled })
    ]

parse_set-IsRequirement :
    (to_lower : Bytes → Bytes) (e : Bytes) {res : Result SelectorError Requirement}
    {r : Requirement}
    → parse_set_selector_expression to_lower e ≡ some res
    → res ≡ ok r
    → IsRequirement r
unfolding parse_set_selector_expression
parse_set-IsRequirement to_lower e {res} {r} h hr =
    elim (Option-cases (index (to_lower e) (codes " notin"))) [
      | inr (i, f) ↦
          let same : parse_candidate e i 6 not_in_set ≡ res =
            cc (rw (parse_set_selector_expression, f) at h) in
          parse_candidate-IsRequirement e i 6 not_in_set (λ vs ne. ne) (same ∙ hr)
      | inl f ↦
          let h1 = rw (parse_set_selector_expression, f) at h in
          elim (Option-cases (index (to_lower e) (codes " in"))) [
            | inr (i, g) ↦
                let same : parse_candidate e i 3 in_set ≡ res = cc (rw g at h1) in
                parse_candidate-IsRequirement e i 3 in_set (λ vs ne. ne) (same ∙ hr)
            | inl g ↦ absurd (let q = rw g at h1 in cc)
          ]
    ]

no_values :
    (key : Bytes) (op : Operator)
    → eqb key [] ≡ false
    → IsShaped op []
    → IsRequirement (record { key = key; operator = op; values = [] })
no_values key op k s = record { key_ne_nil = ne_nil key k; shaped = s; values_ne_nil = tt }

parse_unary-IsRequirement :
    (e : Bytes) {r : Requirement}
    → eqb e [] ≡ false
    → parse_unary_selector_expression e ≡ ok r
    → IsRequirement r
unfolding parse_unary_selector_expression
parse_unary-IsRequirement e {r} ne h = elim (Bool-cases (has_prefix e (codes "!"))) [
  | inl neg ↦
      let h1 = rw neg at h in
      let k : Bytes = trim (drop 1 e) in
      elim (Bool-cases (eqb k [])) [
        | inl bad ↦ absurd (let q = rw bad at h1 in cc)
        | inr good ↦
            let same : record { key = k; operator = not_exists; values = [] } ≡ r =
              cc (rw good at h1) in
            subst IsRequirement same (no_values k not_exists good refl)
      ]
  | inr plain ↦
      let same : record { key = e; operator = exists; values = [] } ≡ r = cc (rw plain at h) in
      subst IsRequirement same (no_values e exists ne refl)
]

parse_plain-IsRequirement :
    (e : Bytes) {r : Requirement}
    → eqb e [] ≡ false
    → parse_plain_selector_expression e ≡ ok r
    → IsRequirement r
unfolding parse_plain_selector_expression
parse_plain-IsRequirement e ne h = elim (Option-cases (index e (codes "!="))) [
  | inr (i, f) ↦
      parse_binary-IsRequirement e i 2 not_equals (λ v. refl)
        (rw (parse_plain_selector_expression, f) at h)
  | inl f ↦
      let h1 = rw (parse_plain_selector_expression, f) at h in
      elim (Option-cases (index e (codes "=="))) [
        | inr (i, g) ↦ parse_binary-IsRequirement e i 2 equals (λ v. refl) (rw g at h1)
        | inl g ↦
            let h2 = rw g at h1 in
            elim (Option-cases (index e (codes "="))) [
              | inr (i, k) ↦ parse_binary-IsRequirement e i 1 equals (λ v. refl) (rw k at h2)
              | inl k ↦ parse_unary-IsRequirement e ne (rw k at h2)
            ]
      ]
]

pub parse_selector_expression-IsRequirement :
    (to_lower : Bytes → Bytes) (e : Bytes) {r : Requirement}
    → parse_selector_expression to_lower e ≡ ok r
    → IsRequirement r
unfolding parse_selector_expression parse_trimmed_expression
parse_selector_expression-IsRequirement to_lower e h = elim (Bool-cases (eqb (trim e) [])) [
  | inl bad ↦ absurd (let q = rw bad at h in cc)
  | inr good ↦
      let h1 = rw good at h in
      elim (Option-cases (parse_set_selector_expression to_lower (trim e))) [
        | inr (res, f) ↦
            parse_set-IsRequirement to_lower (trim e) f (rw (parse_trimmed_expression, f) at h1)
        | inl f ↦ parse_plain-IsRequirement (trim e) good (rw (parse_trimmed_expression, f) at h1)
      ]
]
