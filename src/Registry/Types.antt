-- ===== src/Registry/Types.antt =====
-- The data of internal/registry/model.go and internal/registry/selector.go. Labels and metadata
-- are association lists; a `nil` map is the empty list. Fields of Go's `int32` and `int64` are
-- integers, and 64-bit arithmetic on them wraps where it is done.
use stellmap_service.Base.{ℤ, ℕ, List}
use stellmap_service.Text.{Bytes}

-- `map[string]string`, in the order in which `range` visits it
abbrev pub StringMap : Type 0
StringMap = List (Bytes × Bytes)

pub record Endpoint : Type 0 where
  pub name : Bytes
  pub protocol : Bytes
  pub host : Bytes
  pub port : ℤ
  pub path : Bytes
  pub weight : ℤ

-- the five levels of a structured service name
pub record Dimensions : Type 0 where
  pub organization : Bytes
  pub business_domain : Bytes
  pub capability_domain : Bytes
  pub application : Bytes
  pub role : Bytes

-- what `NormalizeStructuredServiceIdentity` reads and writes through its six pointers
pub record ServiceIdentity : Type 0 where
  pub service : Bytes
  pub dimensions : Dimensions

pub record RegisterInput : Type 0 where
  pub namespace : Bytes
  pub identity : ServiceIdentity
  pub instance_id : Bytes
  pub zone : Bytes
  pub labels : StringMap
  pub metadata : StringMap
  pub endpoints : List Endpoint
  pub lease_ttl_seconds : ℤ

pub record Value : Type 0 where
  pub namespace : Bytes
  pub identity : ServiceIdentity
  pub instance_id : Bytes
  pub zone : Bytes
  pub labels : StringMap
  pub metadata : StringMap
  pub endpoints : List Endpoint
  pub lease_ttl_seconds : ℤ
  pub registered_at_unix : ℤ
  pub last_heartbeat_unix : ℤ

pub data Operator : Type 0 where
  exists not_exists equals not_equals in_set not_in_set : Operator

pub record Requirement : Type 0 where
  pub key : Bytes
  pub operator : Operator
  pub values : List Bytes

-- the requirements are joined by AND
abbrev pub Selector : Type 0
Selector = List Requirement

pub record Query : Type 0 where
  pub namespace : Bytes
  pub service : Bytes
  pub services : List Bytes
  pub service_prefixes : List Bytes
  pub zone : Bytes
  pub endpoint : Bytes
  pub selector : Selector
  pub limit : ℕ

-- the errors of internal/registry/selector.go; `slice_fault` is the panic of a slice expression
pub data SelectorError : Type 0 where
  unexpected_parenthesis unbalanced_parentheses empty_requirement : SelectorError
  empty_expression key_required values_expected set_value_empty : SelectorError
  key_and_value_required legacy_form legacy_empty slice_fault : SelectorError

-- the errors of the domain, each with what its message shows
pub data Error : Type 0 where
  service_required dimensions_required hierarchy_gap : Error
  service_mismatch : Bytes → Bytes → Error
  negative_ttl endpoint_required endpoint_protocol_required endpoint_host_required : Error
  endpoint_port_range negative_endpoint_weight : Error
  duplicate_endpoint_name : Bytes → Error
  namespace_required negative_limit invalid_limit : Error
  selector_error : SelectorError → Error
