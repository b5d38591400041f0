-- ===== src/Registry/Selector/Sound.antt =====
-- Every selector that the parser returns is one that the matcher is made for.
use stellmap_service.Registry.Selector.Expression.{
  parse_legacy_label-IsRequirement, parse_selector_expression-IsRequirement,
}
use stellmap_service.Base.{
  ◌≡◌, inl, inr, subst, List, [], ◌∷◌, ◌++◌, Bool-cases, All, All-append, ok, bind-eq-ok,
}
use stellmap_service.Text.{Bytes, eqb, trim}
use stellmap_service.Registry.Types.{Selector}
use stellmap_service.Registry.Selector.{
  parse_legacy_label, parse_legacy_label_filters, split_selector_expressions,
  parse_selector_expression, parse_expressions, parse_label_selectors, parse_label_selector_filters,
}
use stellmap_service.Registry.Selector.Match.{IsRequirement}

parse_expressions-IsRequirement :
    (to_lower : Bytes → Bytes) (es : List Bytes) {rs : Selector}
    → parse_expressions to_lower es ≡ ok rs
    → All IsRequirement rs
unfolding parse_expressions
parse_expressions-IsRequirement to_lower [] {rs} h =
    let same : [] ≡ rs = cc h in subst (All IsRequirement) same tt
parse_expressions-IsRequirement to_lower (e ∷ es) {rs} h =
    let (r, hr, h1) = bind-eq-ok (parse_selector_expression to_lower e) _ h in
    let (more, hm, h2) = bind-eq-ok (parse_expressions to_lower es) _ h1 in
    let same : r ∷ more ≡ rs = cc h2 in
    subst (All IsRequirement) same (
      parse_selector_expression-IsRequirement to_lower e hr,
      parse_expressions-IsRequirement to_lower es hm,
    )

parse_label_selectors-IsRequirement :
    (to_lower : Bytes → Bytes) (items : List Bytes) {rs : Selector}
    → parse_label_selectors to_lower items ≡ ok rs
    → All IsRequirement rs
unfolding parse_label_selectors
parse_label_selectors-IsRequirement to_lower [] {rs} h =
    let same : [] ≡ rs = cc h in subst (All IsRequirement) same tt
parse_label_selectors-IsRequirement to_lower (item ∷ items) {rs} h =
    elim (Bool-cases (eqb (trim item) [])) [
      | inl e ↦ parse_label_selectors-IsRequirement to_lower items (rw e at h)
      | inr e ↦
          let (es, he, h1) = bind-eq-ok (split_selector_expressions (trim item)) _ (rw e at h) in
          let (first, hf, h2) = bind-eq-ok (parse_expressions to_lower es) _ h1 in
          let (more, hm, h3) = bind-eq-ok (parse_label_selectors to_lower items) _ h2 in
          let same : first ++ more ≡ rs = cc h3 in
          subst (All IsRequirement) same (
            All-append IsRequirement first more (parse_expressions-IsRequirement to_lower es hf)
              (parse_label_selectors-IsRequirement to_lower items hm))
    ]

parse_legacy_label_filters-IsRequirement :
    (items : List Bytes) {rs : Selector}
    → parse_legacy_label_filters items ≡ ok rs
    → All IsRequirement rs
unfolding parse_legacy_label_filters
parse_legacy_label_filters-IsRequirement [] {rs} h =
    let same : [] ≡ rs = cc h in subst (All IsRequirement) same tt
parse_legacy_label_filters-IsRequirement (item ∷ items) {rs} h =
    elim (Bool-cases (eqb (trim item) [])) [
      | inl e ↦ parse_legacy_label_filters-IsRequirement items (rw e at h)
      | inr e ↦
          let (r, hr, h1) = bind-eq-ok (parse_legacy_label (trim item)) _ (rw e at h) in
          let (more, hm, h2) = bind-eq-ok (parse_legacy_label_filters items) _ h1 in
          let same : r ∷ more ≡ rs = cc h2 in
          subst (All IsRequirement) same (
            parse_legacy_label-IsRequirement (trim item) hr,
            parse_legacy_label_filters-IsRequirement items hm,
          )
    ]

-- Whatever the lower-case function does, each requirement of a selector that the parser accepts,
-- from new expressions or old labels, has a key and the values that its operator needs: none, one
-- or at least one, and no empty value.
pub parse_label_selector_filters-IsRequirement :
    (to_lower : Bytes → Bytes) (selectors legacy_labels : List Bytes) {rs : Selector}
    → parse_label_selector_filters to_lower selectors legacy_labels ≡ ok rs
    → All IsRequirement rs
unfolding parse_label_selector_filters
parse_label_selector_filters-IsRequirement to_lower selectors legacy_labels {rs} h =
    let (parsed, hp, h1) = bind-eq-ok (parse_label_selectors to_lower selectors) _ h in
    let (legacy, hl, h2) = bind-eq-ok (parse_legacy_label_filters legacy_labels) _ h1 in
    let same : parsed ++ legacy ≡ rs = cc h2 in
    subst (All IsRequirement) same (
      All-append IsRequirement parsed legacy
        (parse_label_selectors-IsRequirement to_lower selectors hp)
        (parse_legacy_label_filters-IsRequirement legacy_labels hl))
