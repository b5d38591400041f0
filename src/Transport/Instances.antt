-- ===== src/Transport/Instances.antt =====
-- `QueryInstances` and what it calls (internal/transport/http/handlers_impl.go): from the items of a
-- scan to the instances of the answer. The decoding of JSON is a parameter.
pub mod Range
use stellmap_service.Base.{
  ℕ, zero, suc, ◌+◌, ◌-◌, ◌*◌, ◌/◌, ◌%◌, ◌^◌, ◌≤◌, ◌<◌, ◌≡◌, ◌≢◌, ◌↔◌, ◌⊎◌, inl, inr, refl, sym, ap,
  ap₂, ◌∙◌, subst, fun_ext, Bool, true, false, not, ◌&&◌, ◌||◌, List, [], ◌∷◌, ◌++◌, map, reverse,
  append-nil, append_assoc, reverse-append, reverse-reverse, Option, none, some, arith, ltb, leb,
  ◌==◌, if◌then◌else◌, ==_refl, ==→eq, Bool-cases, Option-cases, &&-true, length, take, drop,
  get_last?, select, any, All, length-append, length-drop, take-append-drop, select-append,
  length-select, All-append, ℤ, pos, negsuc, pos_part, neg_part, sub_ℕ, ◌+ℤ◌, ◌≤ℤ◌, int_leb,
  IsInt64, wrap_int64, wrap_int64_of_IsInt64, wrap_int64-IsInt64, Result, ok, err, ◌>>=◌,
  bind-eq-ok,
}
use stellmap_service.Text.{Bytes, eqb}
use stellmap_service.Storage.{Kv}
use stellmap_service.Registry.Types.{Value, Query, Endpoint, ServiceIdentity, StringMap}
use stellmap_service.Registry.StringMap.{clone_string_map}
use stellmap_service.Registry.Register.{clone_endpoints, filter_endpoints}
use stellmap_service.Registry.Lease.{is_alive, effective_lease_ttl_seconds}
use stellmap_service.Registry.Query.{match_query}
use stellmap_service.Registry.Keys.{service_prefix, namespace_prefix}
use stellmap_service.Transport.Sse.{prefix_range}

pub record RegistryInstanceDto : Type 0 where
  pub namespace : Bytes
  pub identity : ServiceIdentity
  pub instance_id : Bytes
  pub zone : Bytes
  pub labels : StringMap
  pub metadata : StringMap
  pub endpoints : List Endpoint
  pub lease_ttl_seconds : ℤ
  pub registered_at_unix : ℤ
  pub last_heartbeat_unix : ℤ

unfoldable endpoint_dtos_from_registry : List Endpoint → List Endpoint
endpoint_dtos_from_registry [] = []
endpoint_dtos_from_registry (e ∷ es) =
    record {
      name = e.name;
      protocol = e.protocol;
      host = e.host;
      port = e.port;
      path = e.path;
      weight = e.weight;
    }
    ∷ endpoint_dtos_from_registry es

unfoldable instance_with : Value → List Endpoint → RegistryInstanceDto
unfolding endpoint_dtos_from_registry
instance_with v endpoints = record {
  namespace = v.namespace;
  identity = v.identity;
  instance_id = v.instance_id;
  zone = v.zone;
  labels = clone_string_map v.labels;
  metadata = clone_string_map v.metadata;
  endpoints = endpoint_dtos_from_registry endpoints;
  lease_ttl_seconds = effective_lease_ttl_seconds v.lease_ttl_seconds;
  registered_at_unix = v.registered_at_unix;
  last_heartbeat_unix = v.last_heartbeat_unix;
}

-- the endpoints of the answer: without any that the query asks for there is no answer
unfoldable with_endpoints : Value → Query → Option RegistryInstanceDto
unfolding instance_with
with_endpoints v query =
    if eqb query.endpoint []
    then some (instance_with v (clone_endpoints v.endpoints))
    else if length (filter_endpoints v.endpoints query.endpoint) == 0
    then none
    else some (instance_with v (filter_endpoints v.endpoints query.endpoint))

-- behind the match; the outer `none` is a panic of the matcher
unfoldable pub if_matched : Option Bool → Value → Query → Option (Option RegistryInstanceDto)
unfolding with_endpoints
if_matched none v query = none
if_matched (some true) v query = some (with_endpoints v query)
if_matched (some false) v query = some none

unfoldable pub registry_instance_dto_from_value :
    Value → Query → ℤ → Option (Option RegistryInstanceDto)
unfolding if_matched
registry_instance_dto_from_value v query now =
    if not (is_alive v now) then some none else if_matched (match_query v query) v query

-- an item that does not decode is passed over
unfoldable pub item_instance : Option Value → Query → ℤ → Option (Option RegistryInstanceDto)
unfolding registry_instance_dto_from_value
item_instance none query now = some none
item_instance (some v) query now = registry_instance_dto_from_value v query now

abbrev prepend :
    RegistryInstanceDto → Option (List RegistryInstanceDto) → Option (List RegistryInstanceDto)
prepend d none = none
prepend d (some ds) = some (d ∷ ds)

-- what the loop does with an item, with the answers for the rest where it is left out and where it
-- is taken, and whether it fills the limit
unfoldable pub take_instance :
    Option (Option RegistryInstanceDto)
    → Bool
    → Option (List RegistryInstanceDto)
    → Option (List RegistryInstanceDto)
    → Option (List RegistryInstanceDto)
take_instance none full skipped more = none
take_instance (some none) full skipped more = skipped
take_instance (some (some d)) full skipped more = if full then some (d ∷ []) else prepend d more

-- the loop over the items, with the number of instances so far
unfoldable pub collect_instances :
    (Bytes → Option Value) → Query → ℤ → ℕ → List Kv → Option (List RegistryInstanceDto)
unfolding item_instance take_instance
collect_instances decode query now n [] = some []
collect_instances decode query now n (i ∷ is) =
    let skipped = collect_instances decode query now n is in
    let more = collect_instances decode query now (n + 1) is in
    take_instance (item_instance (decode i.value) query now)
      (ltb 0 query.limit && leb query.limit (n + 1)) skipped more

-- one service is scanned where the query names only one
unfoldable pub scan_prefix : Query → Bytes
scan_prefix query =
    if not (eqb query.service [])
      && (leb (length query.services) 1 && length query.service_prefixes == 0)
    then service_prefix query.namespace query.service
    else namespace_prefix query.namespace

-- the instances of the registry's own keys, over the scan of a range
unfoldable pub local_instances :
    (Bytes → Option Value)
    → (Bytes → Bytes → List Kv)
    → Query
    → ℤ
    → Option (List RegistryInstanceDto)
unfolding collect_instances scan_prefix prefix_range
local_instances decode scan query now =
    let (start, end) = prefix_range (scan_prefix query) in
    collect_instances decode query now 0 (scan start end)
