-- ===== src/Registry/Register/Sound.antt =====
-- What `NormalizeRegisterInput` accepts and returns.
use stellmap_service.Base.{
  ◌≡◌, ◌≢◌, inl, inr, refl, ap, subst, true, List, [], ◌∷◌, arith, Bool-cases, All, ℤ, pos, ◌≤ℤ◌,
  int_leb, ok, bind-eq-ok,
}
use stellmap_service.Text.{Bytes}
use stellmap_service.Text.Trim.{IsTrimmed, trim-IsTrimmed, trim_of_IsTrimmed}
use stellmap_service.Registry.Types.{Endpoint, RegisterInput}
use stellmap_service.Registry.StringMap.Clone.{
  IsCloned, clone_string_map-IsCloned, clone_string_map_of_IsCloned,
}
use stellmap_service.Registry.ServiceName.{normalize_structured_service_identity}
use stellmap_service.Registry.ServiceName.Identity
use stellmap_service.Registry.ServiceName.Stable.{normalize_of_IsNormalized}
use stellmap_service.Registry.Lease.{effective_lease_ttl_seconds, effective_ttl_pos}
use stellmap_service.Registry.Register.{
  normalize_endpoints, require_endpoints, normalize_register_input, clone_endpoints, new_value,
}
use stellmap_service.Registry.Register.Endpoints.{
  IsEndpoint, Distinct, normalize_endpoints_sound, normalize_endpoints_complete,
}

-- What holds of a registration that was accepted.
pub record IsRegistrable (r : RegisterInput) : Type 0 where
  pub namespace_trimmed : IsTrimmed r.namespace
  pub identity_normalized : Identity.IsNormalized r.identity
  pub instance_id_trimmed : IsTrimmed r.instance_id
  pub zone_trimmed : IsTrimmed r.zone
  pub labels_cloned : IsCloned r.labels
  pub metadata_cloned : IsCloned r.metadata
  pub endpoints_ne_nil : r.endpoints ≢ []
  pub endpoints_valid : All IsEndpoint r.endpoints
  pub endpoint_names_distinct : Distinct [] r.endpoints
  pub lease_ttl_pos : pos 1 ≤ℤ r.lease_ttl_seconds

normalize_endpoints_ne_nil :
    (seen : List Bytes) (e : Endpoint) (es : List Endpoint) {es' : List Endpoint}
    → normalize_endpoints seen (e ∷ es) ≡ ok es'
    → es' ≢ []
unfolding normalize_endpoints
normalize_endpoints_ne_nil seen e es h q = ground arith

require_endpoints_sound :
    (es : List Endpoint) {es' : List Endpoint}
    → require_endpoints es ≡ ok es'
    → (es' ≢ []) × All IsEndpoint es' × Distinct [] es'
unfolding require_endpoints
require_endpoints_sound [] h = absurd cc
require_endpoints_sound (e ∷ es) h =
    let (v, d) = normalize_endpoints_sound [] (e ∷ es) h in
    (normalize_endpoints_ne_nil [] e es h, v, d)

require_endpoints_complete :
    (es : List Endpoint)
    → es ≢ []
    → All IsEndpoint es
    → Distinct [] es
    → require_endpoints es ≡ ok es
unfolding require_endpoints
require_endpoints_complete [] ne v d = absurd (ne refl)
require_endpoints_complete (e ∷ es) ne v d = normalize_endpoints_complete [] (e ∷ es) v d

-- Every accepted registration comes back registrable: its texts are trimmed and its identity is
-- normalized, labels and metadata have distinct trimmed keys that are not empty, there is at least
-- one endpoint, each with a name, a protocol, a host, a port from 1 to 65535 and a positive weight,
-- under names that differ from one another, and the lease is positive.
pub normalize_register_input-IsRegistrable :
    (r : RegisterInput) {r' : RegisterInput} → normalize_register_input r ≡ ok r' → IsRegistrable r'
unfolding normalize_register_input
normalize_register_input-IsRegistrable r {r'} h =
    let (i, hi, h1) = bind-eq-ok (normalize_structured_service_identity r.identity) _ h in
    elim (Bool-cases (int_leb (pos 0) r.lease_ttl_seconds)) [
      | inr neg ↦ absurd (let q = rw neg at h1 in cc)
      | inl nonneg ↦
          let (es, he, h2) = bind-eq-ok (require_endpoints r.endpoints) _ (rw nonneg at h1) in
          let (ne, v, d) = require_endpoints_sound r.endpoints he in
          let same : _ ≡ r' = cc h2 in
          subst IsRegistrable same (record {
            namespace_trimmed = trim-IsTrimmed r.namespace;
            identity_normalized = Identity.normalize-IsNormalized r.identity hi;
            instance_id_trimmed = trim-IsTrimmed r.instance_id;
            zone_trimmed = trim-IsTrimmed r.zone;
            labels_cloned = clone_string_map-IsCloned r.labels;
            metadata_cloned = clone_string_map-IsCloned r.metadata;
            endpoints_ne_nil = ne;
            endpoints_valid = v;
            endpoint_names_distinct = d;
            lease_ttl_pos = effective_ttl_pos r.lease_ttl_seconds;
          })
    ]

effective_ttl_of_pos : (ttl : ℤ) → pos 1 ≤ℤ ttl → effective_lease_ttl_seconds ttl ≡ ttl
unfolding effective_lease_ttl_seconds
effective_ttl_of_pos ttl h = ground arith

-- A registrable input is accepted unchanged.
normalize_of_IsRegistrable :
    (r : RegisterInput) → IsRegistrable r → normalize_register_input r ≡ ok r
unfolding normalize_register_input
normalize_of_IsRegistrable r v =
    let nonneg : int_leb (pos 0) r.lease_ttl_seconds ≡ true =
      let p = v.lease_ttl_pos in ground arith in
    rw (
      normalize_of_IsNormalized r.identity v.identity_normalized,
      nonneg,
      require_endpoints_complete r.endpoints v.endpoints_ne_nil v.endpoints_valid
          v.endpoint_names_distinct,
      trim_of_IsTrimmed r.namespace v.namespace_trimmed,
      trim_of_IsTrimmed r.instance_id v.instance_id_trimmed,
      trim_of_IsTrimmed r.zone v.zone_trimmed,
      clone_string_map_of_IsCloned r.labels v.labels_cloned,
      clone_string_map_of_IsCloned r.metadata v.metadata_cloned,
      effective_ttl_of_pos r.lease_ttl_seconds v.lease_ttl_pos,
    )

-- A registration that `NormalizeRegisterInput` returned is accepted again, unchanged.
normalize_register_input_idempotent :
    (r : RegisterInput) {r' : RegisterInput}
    → normalize_register_input r ≡ ok r'
    → normalize_register_input r' ≡ ok r'
normalize_register_input_idempotent r {r'} h =
    normalize_of_IsRegistrable r' (normalize_register_input-IsRegistrable r h)

pub clone_endpoints_lem : (es : List Endpoint) → clone_endpoints es ≡ es
unfolding clone_endpoints
clone_endpoints_lem [] = refl
clone_endpoints_lem (e ∷ es) = ap (◌∷◌ e) (clone_endpoints_lem es)

-- The value made of an accepted registration holds its fields unchanged, and both its times are
-- the clock's.
new_value_of_IsRegistrable :
    (r : RegisterInput) (now : ℤ)
    → IsRegistrable r
    → new_value r now ≡ record {
      namespace = r.namespace;
      identity = r.identity;
      instance_id = r.instance_id;
      zone = r.zone;
      labels = r.labels;
      metadata = r.metadata;
      endpoints = r.endpoints;
      lease_ttl_seconds = r.lease_ttl_seconds;
      registered_at_unix = now;
      last_heartbeat_unix = now;
    }
unfolding new_value
new_value_of_IsRegistrable r now v = rw (
  clone_string_map_of_IsCloned r.labels v.labels_cloned,
  clone_string_map_of_IsCloned r.metadata v.metadata_cloned,
  clone_endpoints_lem r.endpoints,
  effective_ttl_of_pos r.lease_ttl_seconds v.lease_ttl_pos,
)
