-- ===== src/Registry/Register.antt =====
-- Registration: `NormalizeRegisterInput`, `NewValue` and the functions on endpoints
-- (internal/registry/model.go).
pub mod Endpoints
pub mod Sound
use stellmap_service.Base.{
  ℕ, zero, suc, ◌+◌, ◌-◌, ◌*◌, ◌/◌, ◌%◌, ◌^◌, ◌≤◌, ◌<◌, ◌≡◌, ◌≢◌, ◌↔◌, ◌⊎◌, inl, inr, refl, sym, ap,
  ◌∙◌, subst, Bool, true, false, not, ◌&&◌, ◌||◌, List, [], ◌∷◌, ◌++◌, map, reverse, append-nil,
  append_assoc, reverse-append, reverse-reverse, Option, none, some, arith, ltb, leb, ◌==◌,
  if◌then◌else◌, ==_refl, ==→eq, Bool-cases, Option-cases, &&-true, length, take, drop, get_last?,
  select, any, All, length-append, length-drop, take-append-drop, select-append, length-select,
  All-append, ℤ, pos, negsuc, pos_part, neg_part, sub_ℕ, ◌+ℤ◌, ◌≤ℤ◌, int_leb, IsInt64, wrap_int64,
  wrap_int64_of_IsInt64, wrap_int64-IsInt64, Result, ok, err, ◌>>=◌, bind-eq-ok,
}
use stellmap_service.Text.{Bytes, eqb, trim}
use stellmap_service.Registry.Types.{
  Endpoint, RegisterInput, Value, Error, negative_ttl, endpoint_required,
  endpoint_protocol_required, endpoint_host_required, endpoint_port_range, negative_endpoint_weight,
  duplicate_endpoint_name,
}
use stellmap_service.Registry.StringMap.{clone_string_map}
use stellmap_service.Registry.ServiceName.{normalize_structured_service_identity}
use stellmap_service.Registry.Lease.{effective_lease_ttl_seconds}

abbrev default_endpoint_weight : ℤ
default_endpoint_weight = pos 100

-- the first four statements of the loop's body
trim_endpoint : Endpoint → Endpoint
trim_endpoint e = record e {
  name = trim e.name;
  protocol = trim e.protocol;
  host = trim e.host;
  path = trim e.path;
}

-- the tests and defaults of the loop's body, on trimmed texts
unfoldable pub check_endpoint : Endpoint → Result Error Endpoint
check_endpoint e =
    let name = if eqb e.name [] then e.protocol else e.name in
    let weight = if int_leb e.weight (pos 0) then default_endpoint_weight else e.weight in
    if eqb e.protocol []
    then err endpoint_protocol_required
    else if eqb e.host []
    then err endpoint_host_required
    else if int_leb e.port (pos 0) || not (int_leb e.port (pos 65535))
    then err endpoint_port_range
    else if not (int_leb (pos 0) e.weight)
    then err negative_endpoint_weight
    else ok (record e { name = name; weight = weight })

unfoldable pub normalize_endpoint : Endpoint → Result Error Endpoint
unfolding trim_endpoint check_endpoint
normalize_endpoint e = check_endpoint (trim_endpoint e)

-- `_, ok := seen[name]`
unfoldable pub contains : Bytes → List Bytes → Bool
contains s seen = any (λ t. eqb t s) seen

-- the loop over the endpoints, with the names that it has seen
unfoldable pub normalize_endpoints : List Bytes → List Endpoint → Result Error (List Endpoint)
normalize_endpoints seen [] = ok []
normalize_endpoints seen (e ∷ es) = do
  e' ← normalize_endpoint e
  let rest = normalize_endpoints (e'.name ∷ seen) es
  if contains e'.name seen
      then err (duplicate_endpoint_name e'.name)
      else do es' ← rest; ok (e' ∷ es')

-- `len(request.Endpoints) == 0`, and the loop
unfoldable pub require_endpoints : List Endpoint → Result Error (List Endpoint)
require_endpoints [] = err endpoint_required
require_endpoints (e ∷ es) = normalize_endpoints [] (e ∷ es)

unfoldable pub normalize_register_input : RegisterInput → Result Error RegisterInput
unfolding require_endpoints
normalize_register_input r = do
  identity ← normalize_structured_service_identity r.identity
  if not (int_leb (pos 0) r.lease_ttl_seconds) then err negative_ttl else do
    endpoints ← require_endpoints r.endpoints
    ok (record {
      namespace = trim r.namespace;
      identity = identity;
      instance_id = trim r.instance_id;
      zone = trim r.zone;
      labels = clone_string_map r.labels;
      metadata = clone_string_map r.metadata;
      endpoints = endpoints;
      lease_ttl_seconds = effective_lease_ttl_seconds r.lease_ttl_seconds;
    })

-- namespace, service and instance id
unfoldable normalize_instance_identity : Bytes × Bytes × Bytes → Bytes × Bytes × Bytes
normalize_instance_identity (namespace, service, instance_id) =
    (trim namespace, trim service, trim instance_id)

-- a new list with the same fields
unfoldable pub clone_endpoints : List Endpoint → List Endpoint
clone_endpoints [] = []
clone_endpoints (e ∷ es) =
    (record {
      name = e.name;
      protocol = e.protocol;
      host = e.host;
      port = e.port;
      path = e.path;
      weight = e.weight;
    })
    ∷ clone_endpoints es

unfoldable pub new_value : RegisterInput → ℤ → Value
unfolding clone_endpoints
new_value r now = record {
  namespace = r.namespace;
  identity = r.identity;
  instance_id = r.instance_id;
  zone = r.zone;
  labels = clone_string_map r.labels;
  metadata = clone_string_map r.metadata;
  endpoints = clone_endpoints r.endpoints;
  lease_ttl_seconds = effective_lease_ttl_seconds r.lease_ttl_seconds;
  registered_at_unix = now;
  last_heartbeat_unix = now;
}

-- the endpoints whose name or protocol is the expected text
unfoldable pub filter_endpoints : List Endpoint → Bytes → List Endpoint
unfolding clone_endpoints
filter_endpoints es expected =
    if eqb expected []
    then clone_endpoints es
    else select (λ e. eqb e.name expected || eqb e.protocol expected) es
