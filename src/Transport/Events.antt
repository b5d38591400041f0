-- ===== src/Transport/Events.antt =====
-- The events of a watch, the listing of replicated instances and the snapshot that a watch begins
-- with (internal/transport/http/handlers_impl.go). An outer `none` is a panic of the matcher.
pub mod View
use stellmap_service.Base.{
  ℕ, zero, suc, ◌+◌, ◌-◌, ◌*◌, ◌/◌, ◌%◌, ◌^◌, ◌≤◌, ◌<◌, ◌≡◌, ◌≢◌, ◌↔◌, ◌⊎◌, inl, inr, refl, sym, ap,
  ap₂, ◌∙◌, subst, fun_ext, Bool, true, false, not, ◌&&◌, ◌||◌, List, [], ◌∷◌, ◌++◌, map, reverse,
  append-nil, append_assoc, reverse-append, reverse-reverse, Option, none, some, arith, ltb, leb,
  ◌==◌, if◌then◌else◌, ==_refl, ==→eq, Bool-cases, Option-cases, &&-true, length, take, drop,
  get_last?, select, any, All, length-append, length-drop, take-append-drop, select-append,
  length-select, All-append, ℤ, pos, negsuc, pos_part, neg_part, sub_ℕ, ◌+ℤ◌, ◌≤ℤ◌, int_leb,
  IsInt64, wrap_int64, wrap_int64_of_IsInt64, wrap_int64-IsInt64, Result, ok, err, ◌>>=◌,
  bind-eq-ok,
}
use mathlib.Core.Option
use stellmap_service.Text.{Bytes, eqb}
use stellmap_service.Storage.{Kv}
use stellmap_service.Registry.Types.{Value, Query, Dimensions, Selector}
use stellmap_service.Registry.ServiceName.{parse_service_name}
use stellmap_service.Registry.Query.{match_service_query}
use stellmap_service.Registry.Watch.{WatchEvent, WatchEventType, upsert, delete}
use stellmap_service.Registry.Replication.{ReplicatedValue, to_value, parse_replicated_key}
use stellmap_service.Registry.Keys.{replication_root_prefix}
use stellmap_service.Transport.Sse.{prefix_upper_bound}
use stellmap_service.Transport.Instances.{
  RegistryInstanceDto, registry_instance_dto_from_value, take_instance, local_instances,
}

-- an event of an instance; the snapshot event is the pair that `registry_watch_snapshot` gives
pub record RegistryWatchEventDto : Type 0 where
  pub revision : ℕ
  pub kind : WatchEventType
  pub namespace : Bytes
  pub service : Bytes
  pub dimensions : Dimensions
  pub instance_id : Bytes
  pub listed_instance : Option RegistryInstanceDto

-- with the source and the time of the export
pub record ReplicationWatchEventDto : Type 0 where
  pub event : RegistryWatchEventDto
  pub source_region : Bytes
  pub source_cluster_id : Bytes
  pub exported_at_unix : ℤ

-- the levels of a service name; none where it does not parse
unfoldable parsed_dimensions : Option Dimensions → Dimensions
parsed_dimensions (some d) = d
parsed_dimensions none = record {
  organization = [];
  business_domain = [];
  capability_domain = [];
  application = [];
  role = [];
}

unfoldable pub delete_dto : WatchEvent → RegistryWatchEventDto
unfolding parsed_dimensions
delete_dto event = record {
  revision = event.revision;
  kind = delete;
  namespace = event.namespace;
  service = event.service;
  dimensions = parsed_dimensions (parse_service_name event.service);
  instance_id = event.instance_id;
  listed_instance = none;
}

unfoldable pub upsert_dto :
    WatchEvent → Option (Option RegistryInstanceDto) → Option RegistryWatchEventDto
unfolding delete_dto
upsert_dto event none = none
upsert_dto event (some none) = some (delete_dto event)
upsert_dto event (some (some d)) = some (record {
  revision = event.revision;
  kind = upsert;
  namespace = event.namespace;
  service = event.service;
  dimensions = d.identity.dimensions;
  instance_id = event.instance_id;
  listed_instance = some d;
})

unfoldable pub kind_dto :
    WatchEventType → Query → ℤ → WatchEvent → Option Value → Option RegistryWatchEventDto
unfolding upsert_dto
kind_dto upsert query now event none = some (delete_dto event)
kind_dto upsert query now event (some v) =
    upsert_dto event (registry_instance_dto_from_value v query now)
kind_dto delete query now event value = some (delete_dto event)

-- the inner `none` is an event that is not sent
unfoldable pub registry_watch_event_dto :
    Query → ℤ → WatchEvent → Option (Option RegistryWatchEventDto)
unfolding kind_dto
registry_watch_event_dto query now event =
    if not (eqb event.namespace query.namespace) || not (match_service_query event.service query)
    then some none
    else Option.map (λ d. some d) (kind_dto event.kind query now event event.value)

-- the clock is read for `exported_at` and once more for the lease
unfoldable replication_watch_event_dto :
    Query → Bytes → Bytes → ℤ → ℤ → WatchEvent → Option (Option ReplicationWatchEventDto)
unfolding registry_watch_event_dto
replication_watch_event_dto query source_region source_cluster exported_at now event =
    Option.map
      (Option.map (λ d. record {
        event = d;
        source_region = source_region;
        source_cluster_id = source_cluster;
        exported_at_unix = exported_at;
      }))
      (registry_watch_event_dto query now event)

unfoldable decoded_replicated :
    Option ReplicatedValue → Query → ℤ → Option (Option RegistryInstanceDto)
decoded_replicated none query now = some none
decoded_replicated (some v) query now = registry_instance_dto_from_value (to_value v) query now

-- with the parts of the item's key: region, cluster, namespace, service and instance
unfoldable replicated_instance :
    (Bytes → Option ReplicatedValue)
    → Query
    → ℤ
    → Bytes
    → Option (List Bytes)
    → Option (Option RegistryInstanceDto)
unfolding decoded_replicated
replicated_instance decode query now value (some (_ ∷ _ ∷ namespace ∷ service ∷ _ ∷ [])) =
    if not (eqb namespace query.namespace) || not (match_service_query service query)
    then some none
    else decoded_replicated (decode value) query now
replicated_instance decode query now value _ = some none

-- the loop over the items, with the number of instances so far
unfoldable collect_replicated :
    (Bytes → Option ReplicatedValue) → Query → ℤ → ℕ → List Kv → Option (List RegistryInstanceDto)
unfolding replicated_instance take_instance
collect_replicated decode query now n [] = some []
collect_replicated decode query now n (i ∷ is) =
    let skipped = collect_replicated decode query now n is in
    let more = collect_replicated decode query now (n + 1) is in
    take_instance (replicated_instance decode query now i.value (parse_replicated_key i.key))
      (ltb 0 query.limit && leb query.limit (n + 1)) skipped more

unfoldable query_replicated_instances :
    (Bytes → Option ReplicatedValue)
    → (Bytes → Bytes → List Kv)
    → Query
    → ℤ
    → Option (List RegistryInstanceDto)
unfolding collect_replicated
query_replicated_instances decode scan query now =
    collect_replicated decode query now 0
      (scan replication_root_prefix (prefix_upper_bound replication_root_prefix))

-- the replicated instances where there is no local one
unfoldable or_replicated :
    Option (List RegistryInstanceDto)
    → Option (List RegistryInstanceDto)
    → Option (List RegistryInstanceDto)
or_replicated (some []) replicated = replicated
or_replicated (some (d ∷ ds)) replicated = some (d ∷ ds)
or_replicated none replicated = none

-- where no scan fails
unfoldable query_instances :
    (Bytes → Option Value)
    → (Bytes → Option ReplicatedValue)
    → (Bytes → Bytes → List Kv)
    → Query
    → ℤ
    → Option (List RegistryInstanceDto)
unfolding or_replicated
query_instances decode decode_replicated scan query now =
    or_replicated (local_instances decode scan query now)
      (query_replicated_instances decode_replicated scan query now)

-- the instances, and the index that was applied before the scan
unfoldable registry_watch_snapshot :
    (Bytes → Option Value)
    → (Bytes → Bytes → List Kv)
    → Query
    → ℤ
    → ℕ
    → Option (List RegistryInstanceDto × ℕ)
registry_watch_snapshot decode scan query now applied_index =
    Option.map (λ items. (items, applied_index)) (local_instances decode scan query now)
