-- ===== src/Registry/Selector.antt =====
-- Label selectors: internal/registry/selector.go. `strings.ToLower` is a parameter, since it
-- stands on the Unicode tables of the Go runtime. What an error's message shows is left out.
pub mod Expression
pub mod Sound
pub mod Match
use stellmap_service.Base.{
  ℕ, zero, suc, ◌+◌, ◌-◌, ◌*◌, ◌/◌, ◌%◌, ◌^◌, ◌≤◌, ◌<◌, ◌≡◌, ◌≢◌, ◌↔◌, ◌⊎◌, inl, inr, refl, sym, ap,
  ap₂, ◌∙◌, subst, fun_ext, Bool, true, false, not, ◌&&◌, ◌||◌, List, [], ◌∷◌, ◌++◌, map, reverse,
  append-nil, append_assoc, reverse-append, reverse-reverse, Option, none, some, arith, ltb, leb,
  ◌==◌, if◌then◌else◌, ==_refl, ==→eq, Bool-cases, Option-cases, &&-true, length, take, drop,
  get_last?, select, any, All, length-append, length-drop, take-append-drop, select-append,
  length-select, All-append, ℤ, pos, negsuc, pos_part, neg_part, sub_ℕ, ◌+ℤ◌, ◌≤ℤ◌, int_leb,
  IsInt64, wrap_int64, wrap_int64_of_IsInt64, wrap_int64-IsInt64, Result, ok, err, ◌>>=◌,
  bind-eq-ok,
}
use stellmap_service.Text.{Bytes, eqb, trim, has_prefix, has_suffix, index, split, cut, codes}
use stellmap_service.GoMap.{lookup}
use stellmap_service.Registry.Types.{
  StringMap, Operator, exists, not_exists, equals, not_equals, in_set, not_in_set, Requirement,
  Selector, SelectorError, unexpected_parenthesis, unbalanced_parentheses, empty_requirement,
  empty_expression, key_required, values_expected, set_value_empty, key_and_value_required,
  legacy_form, legacy_empty, slice_fault,
}

-- `strings.SplitN(item, "=", 2)` and the tests behind it
unfoldable pub parse_legacy_label : Bytes → Result SelectorError Requirement
parse_legacy_label item = elim (cut item b'=') [
  | none ↦ err legacy_form
  | some p ↦
      if eqb (trim p.0) [] || eqb (trim p.1) []
      then err legacy_empty
      else ok (record { key = trim p.0; operator = equals; values = trim p.1 ∷ [] })
]

unfoldable pub parse_legacy_label_filters : List Bytes → Result SelectorError Selector
unfolding parse_legacy_label
parse_legacy_label_filters [] = ok []
parse_legacy_label_filters (item ∷ items) =
    let rest = parse_legacy_label_filters items in
    if eqb (trim item) []
    then rest
    else do r ← parse_legacy_label (trim item); rs ← rest; ok (r ∷ rs)

-- The loop of `splitSelectorExpressions`: `current` is `raw[start:index]` from back to front, and
-- the last clause is what follows the loop. The bytes of the other runes are none of `(`, `)`
-- and `,`, so that the loop over bytes does what the loop over runes does.
unfoldable split_expressions : ℕ → Bytes → Bytes → Result SelectorError (List Bytes)
split_expressions depth current [] =
    if not (depth == 0)
    then err unbalanced_parentheses
    else if eqb (trim (reverse current)) []
    then err empty_requirement
    else ok (trim (reverse current) ∷ [])
split_expressions depth current (c ∷ rest) =
    let opened = split_expressions (depth + 1) (c ∷ current) rest in
    let closed = split_expressions (depth - 1) (c ∷ current) rest in
    let next_expression = split_expressions depth [] rest in
    let same = split_expressions depth (c ∷ current) rest in
    let found =
      if eqb (trim (reverse current)) []
      then err empty_requirement
      else (do es ← next_expression; ok (trim (reverse current) ∷ es)) in
    if c == b'('
    then opened
    else if c == b')'
    then if depth == 0 then err unexpected_parenthesis else closed
    else if c == b',' && depth == 0
    then found
    else same

unfoldable pub split_selector_expressions : Bytes → Result SelectorError (List Bytes)
unfolding split_expressions
split_selector_expressions raw =
    if eqb (trim raw) [] then ok [] else split_expressions 0 [] (trim raw)

unfoldable pub parse_binary_selector_expression :
    Bytes → ℕ → ℕ → Operator → Result SelectorError Requirement
parse_binary_selector_expression expression index operator_length operator =
    let key = trim (take index expression) in
    let value = trim (drop (index + operator_length) expression) in
    if eqb key [] || eqb value []
    then err key_and_value_required
    else ok (record { key = key; operator = operator; values = value ∷ [] })

-- the loop with the values that it has seen
unfoldable pub set_values : List Bytes → List Bytes → Result SelectorError (List Bytes)
set_values seen [] = ok []
set_values seen (item ∷ items) =
    let skipped = set_values seen items in
    let kept = set_values (trim item ∷ seen) items in
    if eqb (trim item) []
    then err set_value_empty
    else if any (λ s. eqb s (trim item)) seen
    then skipped
    else do vs ← kept; ok (trim item ∷ vs)

-- `len(values) == 0`
unfoldable pub require_values : List Bytes → Result SelectorError (List Bytes)
require_values [] = err set_value_empty
require_values (v ∷ vs) = ok (v ∷ vs)

unfoldable pub parse_set_selector_values : Bytes → Result SelectorError (List Bytes)
unfolding set_values require_values
parse_set_selector_values raw = set_values [] (split raw b',') >>= require_values

-- the text of the values, with its parentheses
unfoldable pub parse_values_text : Bytes → Result SelectorError (List Bytes)
unfolding parse_set_selector_values
parse_values_text values_text =
    if not (has_prefix values_text (codes "(")) || not (has_suffix values_text (codes ")"))
    then err values_expected
    else parse_set_selector_values (take (length values_text - 2) (drop 1 values_text))

-- The body of the loop over the candidates, for one whose token stands at `index` in the
-- lower-case text. A slice beyond the end of the expression panics.
unfoldable pub parse_candidate : Bytes → ℕ → ℕ → Operator → Result SelectorError Requirement
unfolding parse_values_text
parse_candidate expression index token_length operator =
    if ltb (length expression) index
    then err slice_fault
    else if eqb (trim (take index expression)) []
    then err key_required
    else if ltb (length expression) (index + token_length)
    then err slice_fault
    else do
      values ← parse_values_text (trim (drop (index + token_length) expression))
      ok (record { key = trim (take index expression); operator = operator; values = values })

-- `parseSetSelectorExpression`: `none` where no candidate is found
unfoldable pub parse_set_selector_expression :
    (Bytes → Bytes) → Bytes → Option (Result SelectorError Requirement)
unfolding parse_candidate
parse_set_selector_expression to_lower expression =
    elim (index (to_lower expression) (codes " notin")) [
      | some i ↦ some (parse_candidate expression i 6 not_in_set)
      | none ↦ elim (index (to_lower expression) (codes " in")) [
        | some i ↦ some (parse_candidate expression i 3 in_set)
        | none ↦ none
      ]
    ]

-- what follows the search for the binary operators
unfoldable pub parse_unary_selector_expression : Bytes → Result SelectorError Requirement
parse_unary_selector_expression expression =
    if has_prefix expression (codes "!")
    then if eqb (trim (drop 1 expression)) []
      then err key_required
      else ok (record { key = trim (drop 1 expression); operator = not_exists; values = [] })
    else ok (record { key = expression; operator = exists; values = [] })

-- the search for `!=`, `==` and `=`
unfoldable pub parse_plain_selector_expression : Bytes → Result SelectorError Requirement
unfolding parse_unary_selector_expression parse_binary_selector_expression
parse_plain_selector_expression expression = elim (index expression (codes "!=")) [
  | some i ↦ parse_binary_selector_expression expression i 2 not_equals
  | none ↦ elim (index expression (codes "==")) [
    | some i ↦ parse_binary_selector_expression expression i 2 equals
    | none ↦ elim (index expression (codes "=")) [
      | some i ↦ parse_binary_selector_expression expression i 1 equals
      | none ↦ parse_unary_selector_expression expression
    ]
  ]
]

-- `parseSelectorExpression` on a trimmed text that is not empty
unfoldable pub parse_trimmed_expression : (Bytes → Bytes) → Bytes → Result SelectorError Requirement
unfolding parse_set_selector_expression parse_plain_selector_expression
parse_trimmed_expression to_lower expression =
    elim (parse_set_selector_expression to_lower expression) [
      | some result ↦ result
      | none ↦ parse_plain_selector_expression expression
    ]

unfoldable pub parse_selector_expression :
    (Bytes → Bytes) → Bytes → Result SelectorError Requirement
unfolding parse_trimmed_expression
parse_selector_expression to_lower expression =
    if eqb (trim expression) []
    then err empty_expression
    else parse_trimmed_expression to_lower (trim expression)

unfoldable pub parse_expressions : (Bytes → Bytes) → List Bytes → Result SelectorError Selector
unfolding parse_selector_expression
parse_expressions to_lower [] = ok []
parse_expressions to_lower (e ∷ es) = do
  r ← parse_selector_expression to_lower e
  rs ← parse_expressions to_lower es
  ok (r ∷ rs)

unfoldable pub parse_label_selectors : (Bytes → Bytes) → List Bytes → Result SelectorError Selector
unfolding parse_expressions split_selector_expressions
parse_label_selectors to_lower [] = ok []
parse_label_selectors to_lower (item ∷ items) =
    let rest = parse_label_selectors to_lower items in
    if eqb (trim item) [] then rest else do
      es ← split_selector_expressions (trim item)
      rs ← parse_expressions to_lower es
      more ← rest
      ok (rs ++ more)

unfoldable pub parse_label_selector_filters :
    (Bytes → Bytes) → List Bytes → List Bytes → Result SelectorError Selector
unfolding parse_label_selectors parse_legacy_label_filters
parse_label_selector_filters to_lower selectors legacy_labels = do
  parsed ← parse_label_selectors to_lower selectors
  legacy ← parse_legacy_label_filters legacy_labels
  ok (parsed ++ legacy)

unfoldable pub contains_string : List Bytes → Bytes → Bool
contains_string items target = any (λ item. eqb item target) items

-- `value == requirement.Values[0]`; `none` is the panic of an index out of range
unfoldable pub equals_first : List Bytes → Bytes → Option Bool
equals_first [] value = none
equals_first (v ∷ vs) value = some (eqb value v)

unfoldable pub negated : Option Bool → Option Bool
negated none = none
negated (some b) = some (not b)

-- The switch, with what the labels hold for the key. `&&` and `||` skip the index.
unfoldable pub matches_operator : Operator → List Bytes → Option Bytes → Option Bool
unfolding contains_string equals_first negated
matches_operator exists values none = some false
matches_operator exists values (some value) = some true
matches_operator not_exists values none = some true
matches_operator not_exists values (some value) = some false
matches_operator equals values none = some false
matches_operator equals values (some value) = equals_first values value
matches_operator not_equals values none = some true
matches_operator not_equals values (some value) = negated (equals_first values value)
matches_operator in_set values none = some false
matches_operator in_set values (some value) = some (contains_string values value)
matches_operator not_in_set values none = some true
matches_operator not_in_set values (some value) = some (not (contains_string values value))

unfoldable pub matches_label_requirement : StringMap → Requirement → Option Bool
unfolding matches_operator
matches_label_requirement labels r = matches_operator r.operator r.values (lookup r.key labels)

-- the loop goes on after `true` only
unfoldable pub and_then : Option Bool → Option Bool → Option Bool
and_then none rest = none
and_then (some false) rest = some false
and_then (some true) rest = rest

unfoldable pub matches_label_selector : StringMap → Selector → Option Bool
unfolding matches_label_requirement and_then
matches_label_selector labels [] = some true
matches_label_selector labels (r ∷ rs) =
    and_then (matches_label_requirement labels r) (matches_label_selector labels rs)
