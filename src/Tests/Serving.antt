-- ===== src/Tests/Serving.antt =====
-- A registration, a heartbeat and a listing.
use stellmap_service.Base.{
  ◌≡◌, ◌↔◌, inl, refl, ap, Bool, true, false, [], ◌∷◌, Option, none, some, arith, leb, select, any,
  pos, ◌+ℤ◌, ◌≤ℤ◌, IsInt64,
}
use stellmap_service.Text.{Bytes, codes, eqb, trim}
use stellmap_service.Storage.{Command, Kv}
use stellmap_service.Storage.Memory.{apply, new_memory_state_machine}
use stellmap_service.Storage.Memory.Laws.{content}
use stellmap_service.Storage.Pebble.Prefix.{IsClean}
use stellmap_service.Storage.Pebble.Engine.{in_bounds}
use stellmap_service.Registry.Types.{Value, Query}
use stellmap_service.Registry.Register.{new_value}
use stellmap_service.Registry.Lease.{effective_lease_ttl_seconds, is_alive}
use stellmap_service.Registry.Keys.{key}
use stellmap_service.Raftnode.Ready.{follower}
use stellmap_service.App.Cleanup.{is_leader_role}
use stellmap_service.Tests.Naming.{order_identity, order_name, raw_identity, raw_identity-accepted}
use stellmap_service.Tests.Registration
use stellmap_service.Tests.Registration.{request, request-accepted, registered}
use stellmap_service.Tests.Syncing.{leading}
use stellmap_service.Transport.Instances.{item_instance, local_instances, collect_instances}
use stellmap_service.Transport.Instances.Range.{IsStored, IsScoped, local_instances_lem}
use stellmap_service.Registry.Watch.{WatchEvent, upsert}
use stellmap_service.Transport.Events.{registry_watch_event_dto}
use stellmap_service.Transport.Events.View.{
  IsNamed, shown_after, stored_after, registry_watch_event_dto-shown,
}
use stellmap_service.Transport.Writing.{
  accepted, ensure_writable, propose, put_command, register_normalized, register_instance,
  deregister, renewed, renew_decoded, renew_read, heartbeat_named, heartbeat,
}
use stellmap_service.Transport.Writing.Leader.{IsRefused, IsNotLeader, not_leader-IsRefused}
use stellmap_service.Transport.Writing.Renewal.{register_instance-alive, heartbeat-alive}

-- one value only, and its encoding
abbrev encode_one : Value → Bytes
encode_one v = v.instance_id

abbrev decode_one : Bytes → Option Value
decode_one bs = some registered

abbrev none_refused : Command → Bool
none_refused c = false

abbrev stored_key : Bytes
stored_key = key (codes "prod") (codes "acme.trade.order.api.web") (codes "i-1")

abbrev put_registered : Command
put_registered = put_command stored_key (encode_one (new_value Registration.accepted (pos 1000)))

request_taken :
    register_instance encode_one decode_one none_refused leading (pos 1000) request
    ≡ (accepted, some put_registered)
unfolding register_instance register_normalized propose ensure_writable eqb is_leader_role
request_taken =
    ap (register_normalized encode_one decode_one none_refused leading (pos 1000)) request-accepted

lease_fits : IsInt64 (pos 1000 +ℤ effective_lease_ttl_seconds (pos 30))
unfolding effective_lease_ttl_seconds
lease_fits = (omega arith, omega arith)

register_instance-alive_example :
    (content (apply (new_memory_state_machine) put_registered).0 stored_key
      ≡ some (encode_one (new_value Registration.accepted (pos 1000))))
    × ((is_alive (new_value Registration.accepted (pos 1000)) (pos 1030) ≡ true)
        ↔ (pos 1030 ≤ℤ pos 1000 +ℤ effective_lease_ttl_seconds (pos 30)))
register_instance-alive_example =
    register_instance-alive encode_one decode_one none_refused leading (pos 1000) request
      Registration.accepted (new_memory_state_machine) (pos 1030) request-accepted request_taken
      (omega arith) (omega arith) lease_fits

abbrev held_bytes : Bytes → Option Bytes
held_bytes k = some (1 ∷ [])

abbrev kept_key : Bytes
kept_key = key (trim (codes " prod")) order_name (trim (codes "i-1"))

abbrev renewed_value : Value
renewed_value = record registered { lease_ttl_seconds = pos 60; last_heartbeat_unix = pos 5000 }

abbrev put_renewed : Command
put_renewed = put_command kept_key (encode_one renewed_value)

renewal_taken :
    heartbeat encode_one decode_one none_refused leading
      (pos 5000)
      held_bytes
      (codes " prod")
      raw_identity
      (codes "i-1")
      (pos 60)
    ≡ (accepted, some put_renewed)
unfolding heartbeat heartbeat_named renew_read renew_decoded propose ensure_writable eqb renewed
    is_leader_role trim
renewal_taken =
    ap
      (heartbeat_named encode_one decode_one none_refused leading (pos 5000) held_bytes
        (trim (codes " prod")) (trim (codes "i-1")) (pos 60))
      raw_identity-accepted

heartbeat-alive_example :
    (content (apply new_memory_state_machine put_renewed).0 kept_key
      ≡ some (encode_one renewed_value))
    × ((is_alive renewed_value (pos 5060) ≡ true) ↔ (pos 5060 ≤ℤ pos 5000 +ℤ pos 60))
heartbeat-alive_example =
    heartbeat-alive encode_one decode_one none_refused leading (pos 5000) held_bytes (codes " prod")
      raw_identity order_identity (codes "i-1") (pos 60) (1 ∷ []) registered
      new_memory_state_machine (pos 5060) raw_identity-accepted refl refl renewal_taken
      (omega arith) (omega arith) (omega arith, omega arith)

following-IsNotLeader : IsNotLeader (record leading { role = follower })
following-IsNotLeader = inl (λ e. cc e)

not_leader-IsRefused_example :
    IsRefused (
      register_instance encode_one decode_one none_refused
        (record leading { role = follower })
        (pos 1000)
        request)
    × IsRefused (
        deregister encode_one decode_one none_refused
          (record leading { role = follower })
          (pos 1000)
          (codes "prod")
          order_identity
          (codes "i-1"))
    × IsRefused (
        heartbeat encode_one decode_one none_refused
          (record leading { role = follower })
          (pos 1000)
          held_bytes
          (codes "prod")
          order_identity
          (codes "i-1")
          (pos 60))
not_leader-IsRefused_example =
    not_leader-IsRefused encode_one decode_one none_refused (record leading { role = follower })
      (pos 1000) request held_bytes (codes "prod") (codes "i-1") order_identity (pos 60)
      following-IsNotLeader

abbrev of_prod : Query
of_prod = record {
  namespace = codes "prod";
  service = codes "acme.trade.order.api.web";
  services = codes "acme.trade.order.api.web" ∷ [];
  service_prefixes = [];
  zone = [];
  endpoint = [];
  selector = [];
  limit = 10;
}

abbrev registered_item : Kv
registered_item = record { key = stored_key; value = codes "i-1" }

registered_service-trimmed : trim registered.identity.service ≡ registered.identity.service
unfolding trim
registered_service-trimmed = refl

registered_item-IsStored : IsStored decode_one registered_item
registered_item-IsStored v e =
    let q : registered ≡ v = cc in rw (← q) (refl, registered_service-trimmed)

all_below : (s : Bytes) → any (λ b. leb 255 b) s ≡ false → IsClean s
all_below [] e = tt
all_below (b ∷ s) e = (ground arith, all_below s (ground arith))

stored_key-IsClean : IsClean stored_key
unfolding key
stored_key-IsClean = all_below stored_key refl

prod-IsScoped : IsScoped of_prod
unfolding trim
prod-IsScoped = (λ e. cc, refl)

local_instances_lem_example :
    local_instances decode_one
      (λ start end. select (λ i. in_bounds (some start) (some end) i.key) (registered_item ∷ []))
      of_prod
      (pos 1010)
    ≡ collect_instances decode_one of_prod (pos 1010) 0 (registered_item ∷ [])
local_instances_lem_example =
    local_instances_lem decode_one of_prod (pos 1010) (registered_item ∷ []) prod-IsScoped
      ((registered_item-IsStored, stored_key-IsClean), tt)

abbrev registered_event : WatchEvent
registered_event = record {
  revision = 7;
  kind = upsert;
  namespace = codes "prod";
  service = codes "acme.trade.order.api.web";
  instance_id = codes "i-1";
  value = some registered;
}

registered_event-IsNamed : IsNamed registered_event registered_event.value
registered_event-IsNamed v e = let q : registered ≡ v = cc in rw (← q) (refl, refl)

nothing_listed : item_instance none of_prod (pos 1010) ≡ some none
unfolding item_instance
nothing_listed = refl

registry_watch_event_dto-shown_example :
    shown_after (registry_watch_event_dto of_prod (pos 1010) registered_event) none
    ≡ item_instance (stored_after upsert (some registered)) of_prod (pos 1010)
registry_watch_event_dto-shown_example =
    registry_watch_event_dto-shown of_prod (pos 1010) registered_event none none prod-IsScoped
      (λ v e. absurd cc) registered_event-IsNamed nothing_listed
