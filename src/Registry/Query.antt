-- ===== src/Registry/Query.antt =====
-- Queries: `ParseQuery` and `MatchQuery` (internal/registry/model.go). The values of a URL are a
-- map from names to the lists of their values.
pub mod Sets
pub mod Match
use stellmap_service.Base.{
  ℕ, zero, suc, ◌+◌, ◌-◌, ◌*◌, ◌/◌, ◌%◌, ◌^◌, ◌≤◌, ◌<◌, ◌≡◌, ◌≢◌, ◌↔◌, ◌⊎◌, inl, inr, refl, sym, ap,
  ap₂, ◌∙◌, subst, fun_ext, Bool, true, false, not, ◌&&◌, ◌||◌, List, [], ◌∷◌, ◌++◌, map, reverse,
  append-nil, append_assoc, reverse-append, reverse-reverse, Option, none, some, arith, ltb, leb,
  ◌==◌, if◌then◌else◌, ==_refl, ==→eq, Bool-cases, Option-cases, &&-true, length, take, drop,
  get_last?, select, any, All, length-append, length-drop, take-append-drop, select-append,
  length-select, All-append, ℤ, pos, negsuc, pos_part, neg_part, sub_ℕ, ◌+ℤ◌, ◌≤ℤ◌, int_leb,
  IsInt64, wrap_int64, wrap_int64_of_IsInt64, wrap_int64-IsInt64, Result, ok, err, ◌>>=◌,
  bind-eq-ok,
}
use stellmap_service.Text.{Bytes, eqb, trim, has_prefix, join, codes}
use stellmap_service.GoMap.{lookup}
use stellmap_service.Registry.Types.{
  Dimensions, Value, Query, Error, hierarchy_gap, service_mismatch, namespace_required,
  negative_limit, invalid_limit, selector_error, Selector, SelectorError,
}
use stellmap_service.Registry.ServiceName.{
  levels, compose_service_name, parse_service_name, has_any_service_dimension,
  has_all_service_dimensions, has_gap_in_service_dimensions, service_hierarchy_dimensions,
  fill_levels,
}
use stellmap_service.Registry.Register.{filter_endpoints}
use stellmap_service.Registry.Selector.{
  parse_label_selector_filters, matches_label_selector, and_then,
}

abbrev pub UrlValues : Type 0
UrlValues = List (Bytes × List Bytes)

-- `values[name]`, where a name that is missing has no values
unfoldable pub get_all : UrlValues → Bytes → List Bytes
unfolding lookup
get_all values name = elim (lookup name values) [ some vs ↦ vs | none ↦ [] ]

first_value : List Bytes → Bytes
first_value [] = []
first_value (v ∷ vs) = v

-- `values.Get(name)`
unfoldable pub get_value : UrlValues → Bytes → Bytes
unfolding get_all first_value
get_value values name = first_value (get_all values name)

-- the loop of `normalizeStringSlice` with the values that it has seen
unfoldable pub unseen_values : List Bytes → List Bytes → List Bytes
unseen_values seen [] = []
unseen_values seen (v ∷ vs) =
    let skipped = unseen_values seen vs in
    let kept = unseen_values (trim v ∷ seen) vs in
    if eqb (trim v) []
    then skipped
    else if any (λ s. eqb s (trim v)) seen
    then skipped
    else trim v ∷ kept

unfoldable pub normalize_string_slice : List Bytes → List Bytes
unfolding unseen_values
normalize_string_slice values = unseen_values [] values

unfoldable pub append_unique_string : List Bytes → Bytes → List Bytes
append_unique_string values value =
    if eqb (trim value) []
    then values
    else if any (λ existing. eqb existing (trim value)) values
    then values
    else values ++ trim value ∷ []

-- the five levels of the URL, trimmed
unfoldable pub query_dimensions : UrlValues → Dimensions
query_dimensions values = record {
  organization = trim (get_value values (codes "organization"));
  business_domain = trim (get_value values (codes "businessDomain"));
  capability_domain = trim (get_value values (codes "capabilityDomain"));
  application = trim (get_value values (codes "application"));
  role = trim (get_value values (codes "role"));
}

-- what follows the levels that are filled from the service
unfoldable restrict_query : Dimensions → Query → Result Error Query
restrict_query d query =
    let canonical = compose_service_name d in
    let prefix = join (service_hierarchy_dimensions d) (b'.' ∷ []) in
    if not (has_any_service_dimension (levels d))
    then ok query
    else if has_gap_in_service_dimensions (levels d)
    then err hierarchy_gap
    else if has_all_service_dimensions (levels d)
    then if not (eqb query.service []) && not (eqb query.service canonical)
      then err (service_mismatch query.service canonical)
      else ok (record query {
        service = canonical;
        services = append_unique_string query.services canonical;
      })
    else if not (eqb prefix [])
    then ok (record query { service_prefixes = append_unique_string query.service_prefixes prefix })
    else ok query

unfoldable pub normalize_query_service_identity : Dimensions → Query → Result Error Query
unfolding restrict_query fill_levels
normalize_query_service_identity d query =
    if not (eqb query.service [])
    then restrict_query (fill_levels d (parse_service_name query.service)) query
    else restrict_query d query

-- the digits of a number to base ten, with the number read so far
unfoldable pub digits : ℕ → Bytes → Option ℕ
digits n [] = some n
digits n (c ∷ r) =
    let rest = digits (n * 10 + (c - 48)) r in if leb 48 c && leb c 57 then rest else none

some_digits : Bytes → Option ℕ
unfolding digits
some_digits [] = none
some_digits (c ∷ r) = digits 0 (c ∷ r)

nonnegative : Option ℕ → Option ℤ
nonnegative none = none
nonnegative (some n) = if ltb n (2 ^ 63) then some (pos n) else none

negated : Option ℕ → Option ℤ
negated none = none
negated (some zero) = some (pos 0)
negated (some (suc n)) = if ltb n (2 ^ 63) then some (negsuc n) else none

-- `strconv.Atoi`, with `none` for its errors
unfoldable atoi : Bytes → Option ℤ
unfolding some_digits nonnegative negated
atoi [] = none
atoi (c ∷ r) =
    if c == b'-'
    then negated (some_digits r)
    else if c == b'+'
    then nonnegative (some_digits r)
    else nonnegative (some_digits (c ∷ r))

-- the tests behind `strconv.Atoi`
unfoldable check_limit : Option ℤ → Result Error ℕ
check_limit none = err invalid_limit
check_limit (some (pos n)) = ok n
check_limit (some (negsuc n)) = err negative_limit

unfoldable pub parse_limit : Bytes → Result Error ℕ
unfolding check_limit atoi
parse_limit raw = if eqb (trim raw) [] then ok 0 else check_limit (atoi raw)

unfoldable pub wrap_selector : Result SelectorError Selector → Result Error Selector
wrap_selector (ok s) = ok s
wrap_selector (err e) = err (selector_error e)

-- `if len(query.Services) == 1`
unfoldable single_service : List Bytes → Bytes → Bytes
single_service [] service = service
single_service (s ∷ []) service = s
single_service (s ∷ t ∷ r) service = service

-- the query before its levels are looked at
unfoldable pub initial_query : UrlValues → Query
unfolding normalize_string_slice single_service
initial_query values =
    let services = normalize_string_slice (get_all values (codes "service")) in
    record {
      namespace = trim (get_value values (codes "namespace"));
      service = single_service services (trim (get_value values (codes "service")));
      services = services;
      service_prefixes = normalize_string_slice (get_all values (codes "servicePrefix"));
      zone = trim (get_value values (codes "zone"));
      endpoint = trim (get_value values (codes "endpoint"));
      selector = [];
      limit = 0;
    }

unfoldable pub parse_query : (Bytes → Bytes) → UrlValues → Result Error Query
unfolding initial_query normalize_query_service_identity wrap_selector query_dimensions
parse_query to_lower values =
    if eqb (trim (get_value values (codes "namespace"))) [] then err namespace_required else do
      query ← normalize_query_service_identity (query_dimensions values) (initial_query values)
      limit ← parse_limit (get_value values (codes "limit"))
      selector ← wrap_selector (
          parse_label_selector_filters to_lower (get_all values (codes "selector"))
            (get_all values (codes "label")))
      ok (record query { limit = limit; selector = selector })

-- the three tests of the loop over the prefixes
unfoldable pub has_service_prefix : Bytes → Bytes → Bool
has_service_prefix service prefix =
    eqb service prefix || has_prefix service (prefix ++ b'.' ∷ []) || has_prefix service prefix

-- what follows the trimming
unfoldable pub match_trimmed_service : Bytes → Query → Bool
unfolding has_service_prefix
match_trimmed_service service query =
    if not (eqb query.service []) && not (eqb service query.service)
    then false
    else if ltb 0 (length query.services) && not (any (λ s. eqb service s) query.services)
    then false
    else if ltb 0 (length query.service_prefixes)
        && not (any (has_service_prefix service) query.service_prefixes)
    then false
    else true

unfoldable pub match_service_query : Bytes → Query → Bool
unfolding match_trimmed_service
match_service_query service query = match_trimmed_service (trim service) query

-- The tests stand in the order of the code; `none` is a panic of the matcher of selectors.
unfoldable pub match_query : Value → Query → Option Bool
unfolding match_service_query and_then
match_query value query =
    if not (eqb query.namespace []) && not (eqb value.namespace query.namespace)
    then some false
    else if not (match_service_query value.identity.service query)
    then some false
    else if not (eqb query.zone []) && not (eqb value.zone query.zone)
    then some false
    else and_then (matches_label_selector value.labels query.selector) (
        some (
          not (
            not (eqb query.endpoint [])
            && length (filter_endpoints value.endpoints query.endpoint) == 0)))
