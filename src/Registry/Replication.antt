-- ===== src/Registry/Replication.antt =====
-- Values and keys of instances that are replicated from another region
-- (internal/registry/replication.go). The reading of the clock is an argument.
pub mod Values
use stellmap_service.Base.{
  ℕ, zero, suc, ◌+◌, ◌-◌, ◌*◌, ◌/◌, ◌%◌, ◌^◌, ◌≤◌, ◌<◌, ◌≡◌, ◌≢◌, ◌↔◌, ◌⊎◌, inl, inr, refl, sym, ap,
  ap₂, ◌∙◌, subst, fun_ext, Bool, true, false, not, ◌&&◌, ◌||◌, List, [], ◌∷◌, ◌++◌, map, reverse,
  append-nil, append_assoc, reverse-append, reverse-reverse, Option, none, some, arith, ltb, leb,
  ◌==◌, if◌then◌else◌, ==_refl, ==→eq, Bool-cases, Option-cases, &&-true, length, take, drop,
  get_last?, select, any, All, length-append, length-drop, take-append-drop, select-append,
  length-select, All-append, ℤ, pos, negsuc, pos_part, neg_part, sub_ℕ, ◌+ℤ◌, ◌≤ℤ◌, int_leb,
  IsInt64, wrap_int64, wrap_int64_of_IsInt64, wrap_int64-IsInt64, Result, ok, err, ◌>>=◌,
  bind-eq-ok,
}
use stellmap_service.Text.{Bytes, codes, eqb, trim, trim_prefix, has_prefix, index, split}
use stellmap_service.Registry.Types.{StringMap, Endpoint, ServiceIdentity, Value}
use stellmap_service.Registry.StringMap.{clone_string_map}
use stellmap_service.Registry.Register.{clone_endpoints}
use stellmap_service.Registry.Lease.{effective_lease_ttl_seconds}
use stellmap_service.Registry.Keys.{replication_registry_prefix}

pub record ReplicatedValue : Type 0 where
  pub namespace : Bytes
  pub identity : ServiceIdentity
  pub instance_id : Bytes
  pub zone : Bytes
  pub labels : StringMap
  pub metadata : StringMap
  pub endpoints : List Endpoint
  pub lease_ttl_seconds : ℤ
  pub registered_at_unix : ℤ
  pub last_heartbeat_unix : ℤ
  pub source_region : Bytes
  pub source_cluster_id : Bytes
  pub source_revision : ℕ
  pub replicated_at_unix : ℤ
  pub origin : Bytes

pub record ReplicationCheckpoint : Type 0 where
  pub source_region : Bytes
  pub source_cluster_id : Bytes
  pub namespace : Bytes
  pub service : Bytes
  pub last_applied_revision : ℕ
  pub last_snapshot_revision : ℕ
  pub updated_at_unix : ℤ

-- `clock` is what `time.Now().Unix()` returns
unfoldable pub new_replicated_value : Bytes → Bytes → ℕ → Value → ℤ → ℤ → ReplicatedValue
new_replicated_value source_region source_cluster_id source_revision value now clock = record {
  namespace = value.namespace;
  identity = value.identity;
  instance_id = value.instance_id;
  zone = value.zone;
  labels = clone_string_map value.labels;
  metadata = clone_string_map value.metadata;
  endpoints = clone_endpoints value.endpoints;
  lease_ttl_seconds = effective_lease_ttl_seconds value.lease_ttl_seconds;
  registered_at_unix = value.registered_at_unix;
  last_heartbeat_unix = value.last_heartbeat_unix;
  source_region = trim source_region;
  source_cluster_id = trim source_cluster_id;
  source_revision = source_revision;
  replicated_at_unix = if int_leb now (pos 0) then clock else now;
  origin = codes "replicated";
}

unfoldable pub to_value : ReplicatedValue → Value
to_value v = record {
  namespace = v.namespace;
  identity = v.identity;
  instance_id = v.instance_id;
  zone = v.zone;
  labels = clone_string_map v.labels;
  metadata = clone_string_map v.metadata;
  endpoints = clone_endpoints v.endpoints;
  lease_ttl_seconds = effective_lease_ttl_seconds v.lease_ttl_seconds;
  registered_at_unix = v.registered_at_unix;
  last_heartbeat_unix = v.last_heartbeat_unix;
}

-- `strings.SplitN(s, sep, 2)` with two parts
unfoldable split_marker : Bytes → Bytes → Option (Bytes × Bytes)
split_marker s sep = elim (index s sep) [
  | some i ↦ some (take i s, drop (i + length sep) s)
  | none ↦ none
]

-- the two outer parts of three, if the middle one is `clusters`
unfoldable source_parts : List Bytes → Option (Bytes × Bytes)
source_parts (region ∷ middle ∷ cluster ∷ []) =
    if eqb middle (codes "clusters") then some (region, cluster) else none
source_parts _ = none

unfoldable target_parts : List Bytes → Option (Bytes × Bytes × Bytes)
target_parts (a ∷ b ∷ c ∷ []) = some (a, b, c)
target_parts _ = none

-- the test behind the trimming; the parts are region, cluster, namespace, service, instance
unfoldable checked_parts :
    Option (Bytes × Bytes) → Option (Bytes × Bytes × Bytes) → Option (List Bytes)
checked_parts none target = none
checked_parts (some source) none = none
checked_parts (some (r, k)) (some (n, s, i)) =
    let parts = map trim (r ∷ k ∷ n ∷ s ∷ i ∷ []) in
    if any (λ p. eqb p []) parts then none else some parts

unfoldable pub parse_replicated_key : Bytes → Option (List Bytes)
unfolding checked_parts source_parts target_parts split_marker
parse_replicated_key raw =
    if not (has_prefix raw replication_registry_prefix)
    then none
    else elim (split_marker (trim_prefix raw replication_registry_prefix) (codes "/registry/")) [
      | none ↦ none
      | some p ↦ checked_parts (source_parts (split p.0 b'/')) (target_parts (split p.1 b'/'))
    ]
