-- ===== src/Tests/Registration.antt =====
-- A registration with white space, defaults to fill in and two endpoints; leases.
use stellmap_service.Base.{◌-◌, ◌^◌, ◌≡◌, refl, [], ◌∷◌, some, arith, pos, ◌≤ℤ◌, IsInt64, ok, err}
use stellmap_service.Text.{codes, trim, split, first_width, last_width, drop_runes, eqb}
use stellmap_service.GoMap.{lookup, insert}
use stellmap_service.Registry.Types.{
  Endpoint, Dimensions, RegisterInput, Value, duplicate_endpoint_name,
}
use stellmap_service.Registry.StringMap.{clone_string_map}
use stellmap_service.Registry.Lease.{effective_lease_ttl_seconds, last_heartbeat, lease_end}
use stellmap_service.Registry.Register.{
  normalize_endpoints, normalize_endpoint, contains, normalize_register_input,
}
use stellmap_service.Registry.Register.Sound.{IsRegistrable, normalize_register_input-IsRegistrable}
use stellmap_service.Registry.ServiceName.{
  normalize_structured_service_identity, compose_service_name, parse_service_name,
  has_any_service_dimension, has_all_service_dimensions,
}

abbrev no_levels : Dimensions
no_levels = record {
  organization = [];
  business_domain = [];
  capability_domain = [];
  application = [];
  role = [];
}

abbrev order_levels : Dimensions
order_levels = record {
  organization = codes "acme";
  business_domain = codes "trade";
  capability_domain = codes "order";
  application = codes "api";
  role = codes "web";
}

abbrev raw_http : Endpoint
raw_http = record {
  name = codes "";
  protocol = codes " http";
  host = codes "10.0.0.1 ";
  port = pos 8080;
  path = codes "/v1";
  weight = pos 0;
}

abbrev http : Endpoint
http = record {
  name = codes "http";
  protocol = codes "http";
  host = codes "10.0.0.1";
  port = pos 8080;
  path = codes "/v1";
  weight = pos 100;
}

abbrev grpc : Endpoint
grpc = record {
  name = codes "rpc";
  protocol = codes "grpc";
  host = codes "10.0.0.1";
  port = pos 65535;
  path = codes "";
  weight = pos 5;
}

abbrev pub request : RegisterInput
request = record {
  namespace = codes " prod ";
  identity = record { service = codes "acme.trade.order.api.web"; dimensions = no_levels };
  instance_id = codes "i-1\n";
  zone = codes "az1";
  labels = (codes " color", codes "gray ") ∷ (codes " ", codes "x") ∷ [];
  metadata = [];
  endpoints = raw_http ∷ grpc ∷ [];
  lease_ttl_seconds = pos 0;
}

abbrev pub accepted : RegisterInput
accepted = record {
  namespace = codes "prod";
  identity = record { service = codes "acme.trade.order.api.web"; dimensions = order_levels };
  instance_id = codes "i-1";
  zone = codes "az1";
  labels = (codes "color", codes "gray") ∷ [];
  metadata = [];
  endpoints = http ∷ grpc ∷ [];
  lease_ttl_seconds = pos 30;
}

pub request-accepted : normalize_register_input request ≡ ok accepted
unfolding normalize_register_input normalize_structured_service_identity normalize_endpoints
    normalize_endpoint contains clone_string_map effective_lease_ttl_seconds trim eqb
    compose_service_name parse_service_name has_any_service_dimension has_all_service_dimensions
    split first_width last_width drop_runes insert
request-accepted = refl

same_name_twice :
    normalize_register_input (record request { endpoints = raw_http ∷ http ∷ [] })
    ≡ err (duplicate_endpoint_name (codes "http"))
unfolding normalize_register_input normalize_structured_service_identity normalize_endpoints
    normalize_endpoint contains trim eqb compose_service_name parse_service_name
    has_any_service_dimension has_all_service_dimensions split first_width last_width drop_runes
same_name_twice = refl

normalize_register_input-IsRegistrable_example : IsRegistrable accepted
normalize_register_input-IsRegistrable_example =
    normalize_register_input-IsRegistrable request request-accepted

endpoints-accepted :
    normalize_endpoints (codes "tcp" ∷ []) (raw_http ∷ grpc ∷ []) ≡ ok (http ∷ grpc ∷ [])
unfolding normalize_endpoints normalize_endpoint contains trim eqb
endpoints-accepted = refl

abbrev pub registered : Value
registered = record {
  namespace = codes "prod";
  identity = record { service = codes "acme.trade.order.api.web"; dimensions = order_levels };
  instance_id = codes "i-1";
  zone = codes "az1";
  labels = (codes "color", codes "gray") ∷ [];
  metadata = [];
  endpoints = http ∷ grpc ∷ [];
  lease_ttl_seconds = pos 30;
  registered_at_unix = pos 1000;
  last_heartbeat_unix = pos 1000;
}

two_spellings :
    lookup (codes "a") (
      clone_string_map
        ((codes "a ", codes "1") ∷ (codes "b", codes "2") ∷ (codes " a", codes "3 ") ∷ []))
    ≡ some (codes "3")
unfolding clone_string_map trim eqb lookup
two_spellings = refl

registered_heartbeat : pos 1 ≤ℤ last_heartbeat registered
unfolding last_heartbeat
registered_heartbeat = omega arith

registered_end : IsInt64 (lease_end registered)
unfolding last_heartbeat effective_lease_ttl_seconds
registered_end = (omega arith, omega arith)

abbrev endless : Value
endless = record registered { lease_ttl_seconds = pos (2 ^ 63 - 1) }

endless_heartbeat : pos 1 ≤ℤ last_heartbeat endless
unfolding last_heartbeat
endless_heartbeat = omega arith

endless_heartbeat-IsInt64 : IsInt64 (last_heartbeat endless)
unfolding last_heartbeat
endless_heartbeat-IsInt64 = (omega arith, omega arith)

endless_end : pos (2 ^ 63) ≤ℤ lease_end endless
unfolding last_heartbeat effective_lease_ttl_seconds
endless_end = omega arith
