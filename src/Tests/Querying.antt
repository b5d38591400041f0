-- ===== src/Tests/Querying.antt =====
-- Queries and label selectors.
use stellmap_service.Base.{
  ◌+◌, ◌≡◌, refl, true, ◌&&◌, List, [], ◌∷◌, ◌++◌, map, some, leb, ◌==◌, if◌then◌else◌, All, pos,
  ok, err,
}
use stellmap_service.Text.{Bytes, codes, trim, split, cut, index, eqb, has_prefix, has_suffix}
use stellmap_service.GoMap.{lookup}
use stellmap_service.Registry.Types.{
  Value, Query, equals, in_set, not_exists, Selector, values_expected, slice_fault,
}
use stellmap_service.Registry.Selector.{parse_label_selector_filters, matches_label_selector}
use stellmap_service.Registry.Selector.Match.{
  IsRequirement, Holds, Decides, matches_label_selector-Decides,
}
use stellmap_service.Registry.Selector.Sound.{parse_label_selector_filters-IsRequirement}
use stellmap_service.Registry.Query.{UrlValues, parse_query, match_query, get_value, parse_limit}
use stellmap_service.Registry.Query.Match.{Matches, parse_query-Decides}
use stellmap_service.Registry.ServiceName.{has_any_service_dimension, parse_service_name}

abbrev ascii_lower : Bytes → Bytes
ascii_lower s = map (λ c. if leb 65 c && leb c 90 then c + 32 else c) s

abbrev selectors : List Bytes
selectors = codes "version IN (v1, v2,v1),!deprecated" ∷ []

abbrev parsed : Selector
parsed =
    record { key = codes "version"; operator = in_set; values = codes "v1" ∷ codes "v2" ∷ [] }
    ∷ record { key = codes "deprecated"; operator = not_exists; values = [] }
    ∷ record { key = codes "color"; operator = equals; values = codes "gray" ∷ [] }
    ∷ []

selectors-parsed :
    parse_label_selector_filters ascii_lower selectors (codes "color = gray" ∷ []) ≡ ok parsed
unfolding parse_label_selector_filters trim eqb split cut index has_prefix has_suffix
selectors-parsed = refl

parse_label_selector_filters-IsRequirement_example : All IsRequirement parsed
parse_label_selector_filters-IsRequirement_example =
    parse_label_selector_filters-IsRequirement ascii_lower selectors (codes "color = gray" ∷ [])
      selectors-parsed

-- A value that begins with "in" and stands behind a space is taken for the values of a set.
value_read_as_set :
    parse_label_selector_filters ascii_lower (codes "color = indigo" ∷ []) [] ≡ err values_expected
unfolding parse_label_selector_filters trim eqb split cut index has_prefix has_suffix
value_read_as_set = refl

-- U+023A takes two bytes, and three in lower case.
abbrev wide_lower : Bytes → Bytes
wide_lower [] = []
wide_lower (c ∷ s) =
    let rest = wide_lower s in
    if c == 0xC8 then 0xE2 ∷ rest else if c == 0xBA then 0xB1 ∷ 0xA5 ∷ rest else c ∷ rest

abbrev wide : Bytes
wide = 0xC8 ∷ 0xBA ∷ 0xC8 ∷ 0xBA ∷ 0xC8 ∷ 0xBA ∷ 0xC8 ∷ 0xBA ∷ 0xC8 ∷ 0xBA ∷ 0xC8 ∷ 0xBA ∷ []

wide_key_panics :
    parse_label_selector_filters wide_lower ((wide ++ (wide ++ codes " in (a)")) ∷ []) []
    ≡ err slice_fault
unfolding parse_label_selector_filters trim eqb split cut index has_prefix has_suffix
wide_key_panics = refl

abbrev url_values : UrlValues
url_values =
    (codes "namespace", codes "prod " ∷ [])
    ∷ (codes "service", codes "api" ∷ codes " " ∷ codes "api " ∷ [])
    ∷ (codes "selector", selectors)
    ∷ (codes "label", codes "color = gray" ∷ [])
    ∷ (codes "limit", codes "10" ∷ [])
    ∷ []

abbrev query : Query
query = record {
  namespace = codes "prod";
  service = codes "api";
  services = codes "api" ∷ [];
  service_prefixes = [];
  zone = [];
  endpoint = [];
  selector = parsed;
  limit = 10;
}

url_values-parsed : parse_query ascii_lower url_values ≡ ok query
unfolding parse_query parse_label_selector_filters trim eqb split cut index has_prefix has_suffix
    has_any_service_dimension parse_service_name get_value parse_limit
url_values-parsed = refl

abbrev instance_value : Value
instance_value = record {
  namespace = codes "prod";
  identity = record {
    service = codes "api";
    dimensions = record {
      organization = [];
      business_domain = [];
      capability_domain = [];
      application = [];
      role = [];
    };
  };
  instance_id = codes "i-1";
  zone = [];
  labels = (codes "version", codes "v2") ∷ (codes "color", codes "gray") ∷ [];
  metadata = [];
  endpoints = [];
  lease_ttl_seconds = pos 30;
  registered_at_unix = pos 1;
  last_heartbeat_unix = pos 1;
}

instance-matched : match_query instance_value query ≡ some true
unfolding match_query matches_label_selector eqb trim lookup
instance-matched = refl

parse_query-Decides_example :
    Decides (match_query instance_value query) (Matches instance_value query)
parse_query-Decides_example =
    parse_query-Decides ascii_lower url_values instance_value url_values-parsed

matches_label_selector-Decides_example :
    Decides
      (matches_label_selector instance_value.labels parsed)
      (All (Holds instance_value.labels) parsed)
matches_label_selector-Decides_example =
    matches_label_selector-Decides instance_value.labels parsed
      parse_label_selector_filters-IsRequirement_example

abbrev by_organization : Query
by_organization = record query {
  service = [];
  services = [];
  service_prefixes = codes "acme" ∷ [];
  selector = [];
}

-- The query for the organization acme matches a service of the organization acme2.
acme2-trimmed : trim (codes "acme2.trade") ≡ codes "acme2.trade"
unfolding trim
acme2-trimmed = refl
