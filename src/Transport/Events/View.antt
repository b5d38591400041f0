-- ===== src/Transport/Events/View.antt =====
-- A client that applies the events of a watch to what it shows.
use stellmap_service.Base.{
  ◌≡◌, inl, inr, refl, sym, ◌∙◌, Bool, true, false, not, ◌||◌, Option, none, some, arith,
  Bool-cases, ℤ,
}
use mathlib.Core.Option
use stellmap_service.Text.{eqb}
use stellmap_service.Registry.Types.{Value, Query}
use stellmap_service.Registry.Query.{match_service_query}
use stellmap_service.Registry.Watch.{WatchEvent, WatchEventType, upsert, delete}
use stellmap_service.Transport.Instances.{
  RegistryInstanceDto, registry_instance_dto_from_value, item_instance,
}
use stellmap_service.Transport.Instances.Range.{
  IsScoped, match_query-namespace, match_query-service, not_listed,
}
use stellmap_service.Transport.Events.{
  RegistryWatchEventDto, delete_dto, upsert_dto, kind_dto, registry_watch_event_dto,
}

-- what the client shows of an instance after it has received an event, or none
abbrev pub shown_after :
    Option (Option RegistryWatchEventDto)
    → Option RegistryInstanceDto
    → Option (Option RegistryInstanceDto)
shown_after none shown = none
shown_after (some none) shown = some shown
shown_after (some (some d)) shown = some d.listed_instance

-- what is stored after an event
abbrev pub stored_after : WatchEventType → Option Value → Option Value
stored_after upsert value = value
stored_after delete value = none

-- a value has the event's namespace and service
abbrev pub IsNamed : WatchEvent → Option Value → Type 0
IsNamed event o =
    (v : Value)
    → o ≡ some v
    → (v.namespace ≡ event.namespace) × (v.identity.service ≡ event.service)

upsert_dto-shown :
    (event : WatchEvent) (r : Option (Option RegistryInstanceDto))
    (shown : Option RegistryInstanceDto)
    → shown_after (Option.map (λ d. some d) (upsert_dto event r)) shown ≡ r
unfolding upsert_dto delete_dto
upsert_dto-shown event none shown = refl
upsert_dto-shown event (some none) shown = refl
upsert_dto-shown event (some (some d)) shown = refl

kind_dto-shown :
    (kind : WatchEventType) (query : Query) (now : ℤ) (event : WatchEvent) (value : Option Value)
    (shown : Option RegistryInstanceDto)
    → shown_after (Option.map (λ d. some d) (kind_dto kind query now event value)) shown
      ≡ item_instance (stored_after kind value) query now
unfolding kind_dto item_instance delete_dto
kind_dto-shown upsert query now event none shown = refl
kind_dto-shown upsert query now event (some v) shown =
    upsert_dto-shown event (registry_instance_dto_from_value v query now) shown
kind_dto-shown delete query now event value shown = refl

second : {a b : Bool} → a ≡ true → not a || not b ≡ true → b ≡ false
second {a} {b} e h = ground arith

outside :
    (query : Query) (now : ℤ) (event : WatchEvent) (o : Option Value)
    → IsScoped query
    → IsNamed event o
    → not (eqb event.namespace query.namespace) || not (match_service_query event.service query)
      ≡ true
    → item_instance o query now ≡ some none
unfolding item_instance
outside query now event none scoped named h = refl
outside query now event (some v) (ne, trimmed) named h =
    let (n, s) = named v refl in
    elim (Bool-cases (eqb v.namespace query.namespace)) [
      | inr other ↦ not_listed v query now (match_query-namespace v query ne other)
      | inl same ↦
          not_listed v query now (match_query-service v query (rw s (second (rw (← n) same) h)))
    ]

IsNamed-stored_after :
    (kind : WatchEventType) (event : WatchEvent) (value : Option Value)
    → IsNamed event value
    → IsNamed event (stored_after kind value)
IsNamed-stored_after upsert event value h = h
IsNamed-stored_after delete event value h = λ v e. absurd cc

-- For a query of one namespace and at one clock reading, a client that shows of an instance what the
-- listing gives for the stored value shows, after it has received the event of a change of this
-- instance, what the listing gives for the new value: an event that is not sent changes nothing in
-- the listing.
pub registry_watch_event_dto-shown :
    (query : Query) (now : ℤ) (event : WatchEvent) (stored : Option Value)
    (shown : Option RegistryInstanceDto)
    → IsScoped query
    → IsNamed event stored
    → IsNamed event event.value
    → item_instance stored query now ≡ some shown
    → shown_after (registry_watch_event_dto query now event) shown
      ≡ item_instance (stored_after event.kind event.value) query now
unfolding registry_watch_event_dto
registry_watch_event_dto-shown query now event stored shown scoped n m h =
    elim (Bool-cases (
      not (eqb event.namespace query.namespace) || not (match_service_query event.service query))) [
        | inl skipped ↦
            let before = outside query now event stored scoped n skipped in
            let after =
              outside query now event (stored_after event.kind event.value) scoped
                (IsNamed-stored_after event.kind event event.value m) skipped in
            rw (skipped, after) (sym h ∙ before)
        | inr sent ↦ rw sent (kind_dto-shown event.kind query now event event.value shown)
      ]
