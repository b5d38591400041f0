-- ===== src/App/Events.antt =====
-- `publishRegistryEvents` (internal/app/app.go): the watch events of a batch of committed entries.
use stellmap_service.Base.{
  ℕ, ◌≤◌, ◌<◌, ◌≡◌, inl, inr, refl, sym, ap, ◌∙◌, subst, true, List, [], ◌∷◌, Option, none, some,
  arith, Option-cases,
}
use stellmap_service.Registry.Watch.History.{Growing, histories, later_than, replay_exact}
use stellmap_service.Registry.Watch.Publish.{publish_lem, published, published-IsValid}
use stellmap_service.Registry.Watch.{
  new_watch_hub, replay_since, WatchEvent, WatchEventType, upsert, WatchHub, publish,
  append_history,
}
use stellmap_service.Registry.Watch.Publish
use stellmap_service.Text.{Bytes}
use stellmap_service.Storage.{Operation, put, delete, delete_prefix, other, Command}
use stellmap_service.Registry.Types.{Value}
use stellmap_service.Registry.Keys.{parse_key}
use stellmap_service.Registry.Watch
use stellmap_service.Raftnode.Ready.{
  Entry, EntryType, entry_normal, entry_conf_change, entry_conf_change_v2,
}

module _ (decode_command : Bytes → Option Command) (decode_value : Bytes → Option Value) where
  abbrev event : ℕ → WatchEventType → Bytes × Bytes × Bytes → Option Value → WatchEvent
  event index kind (namespace, service, instance_id) value = record {
    revision = index;
    kind = kind;
    namespace = namespace;
    service = service;
    instance_id = instance_id;
    value = value;
  }

  unfoldable upsert_event : ℕ → Bytes × Bytes × Bytes → Option Value → Option WatchEvent
  upsert_event index name none = none
  upsert_event index name (some value) = some (event index upsert name (some value))

  -- the switch over the operation of a command with an instance's key
  unfoldable operation_event : Operation → ℕ → Bytes × Bytes × Bytes → Command → Option WatchEvent
  unfolding upsert_event
  operation_event put index name cmd = upsert_event index name (decode_value cmd.value)
  operation_event delete index name cmd = some (event index Watch.delete name none)
  operation_event delete_prefix index name cmd = none
  operation_event (other _) index name cmd = none

  unfoldable named_event : Option (Bytes × Bytes × Bytes) → ℕ → Command → Option WatchEvent
  unfolding operation_event
  named_event none index cmd = none
  named_event (some name) index cmd = operation_event cmd.operation index name cmd

  unfoldable command_event : Option Command → ℕ → Option WatchEvent
  unfolding named_event
  command_event none index = none
  command_event (some cmd) index = named_event (parse_key cmd.key) index cmd

  unfoldable pub payload_event : EntryType → Bytes → ℕ → Option WatchEvent
  unfolding command_event
  payload_event entry_normal [] index = none
  payload_event entry_normal (b ∷ bs) index = command_event (decode_command (b ∷ bs)) index
  payload_event entry_conf_change payload index = none
  payload_event entry_conf_change_v2 payload index = none

  unfoldable publish_some : Option WatchEvent → WatchHub → Option WatchHub
  publish_some none h = some h
  publish_some (some e) h = publish e h

  unfoldable pub publish_entries : Option WatchHub → List Entry → Option WatchHub
  unfolding payload_event publish_some
  publish_entries none es = none
  publish_entries (some h) [] = some h
  publish_entries (some h) (e ∷ es) =
      publish_entries (publish_some (payload_event e.entry_type e.payload e.index) h) es

  abbrev cons_event : Option WatchEvent → List WatchEvent → List WatchEvent
  cons_event none es = es
  cons_event (some e) es = e ∷ es

  -- The events of entries.
  abbrev pub events_of : List Entry → List WatchEvent
  events_of [] = []
  events_of (e ∷ es) = cons_event (payload_event e.entry_type e.payload e.index) (events_of es)

  -- The indexes grow from each entry to the next, above `low`.
  abbrev Rising : ℕ → List Entry → Type 0
  Rising low [] = Unit
  Rising low (e ∷ es) = (low < e.index) × Rising e.index es

  Growing-lower :
      (low high : ℕ) (es : List WatchEvent) → low ≤ high → Growing high es → Growing low es
  Growing-lower low high [] h g = tt
  Growing-lower low high (e ∷ es) h (g, gs) = (omega arith, gs)

  revision-payload_event :
      (t : EntryType) (payload : Bytes) (index : ℕ) {e : WatchEvent}
      → payload_event t payload index ≡ some e
      → e.revision ≡ index
  unfolding payload_event command_event named_event operation_event upsert_event
  revision-payload_event entry_normal [] index h = absurd cc
  revision-payload_event entry_normal (b ∷ bs) index h = of_command (decode_command (b ∷ bs)) h
    where
      of_value :
          (name : Bytes × Bytes × Bytes) (v : Option Value) {e : WatchEvent}
          → upsert_event index name v ≡ some e
          → e.revision ≡ index
      of_value name none h = absurd cc
      of_value name (some v) {e} h =
          let same : event index upsert name (some v) ≡ e = cc h in
          ap (λ (x : WatchEvent). x.revision) (sym same)

      of_operation :
          (op : Operation) (name : Bytes × Bytes × Bytes) (cmd : Command) {e : WatchEvent}
          → operation_event op index name cmd ≡ some e
          → e.revision ≡ index
      of_operation put name cmd h = of_value name (decode_value cmd.value) h
      of_operation delete name cmd {e} h =
          let same : event index Watch.delete name none ≡ e = cc h in
          ap (λ (x : WatchEvent). x.revision) (sym same)
      of_operation delete_prefix name cmd h = absurd cc
      of_operation (other _) name cmd h = absurd cc

      of_name :
          (o : Option (Bytes × Bytes × Bytes)) (cmd : Command) {e : WatchEvent}
          → named_event o index cmd ≡ some e
          → e.revision ≡ index
      of_name none cmd h = absurd cc
      of_name (some name) cmd h = of_operation cmd.operation name cmd h

      of_command :
          (o : Option Command) {e : WatchEvent}
          → command_event o index ≡ some e
          → e.revision ≡ index
      of_command none h = absurd cc
      of_command (some cmd) h = of_name (parse_key cmd.key) cmd h
  revision-payload_event entry_conf_change payload index h = absurd cc
  revision-payload_event entry_conf_change_v2 payload index h = absurd cc

  events_of-Growing : (low : ℕ) (es : List Entry) → Rising low es → Growing low (events_of es)
  events_of-Growing low [] r = tt
  events_of-Growing low (e ∷ es) (h, r) =
      let rest = events_of-Growing e.index es r in
      elim (Option-cases (payload_event e.entry_type e.payload e.index)) [
        | inl absent ↦ rw absent (Growing-lower low e.index (events_of es) (omega arith) rest)
        | inr (x, there) ↦
            let at : x.revision ≡ e.index =
              revision-payload_event e.entry_type e.payload e.index there in
            rw there (omega arith, subst (λ i. Growing i (events_of es)) (sym at) rest)
      ]

  publish_entries_ok :
      (es : List Entry) (h : WatchHub)
      → Publish.IsValid h
      → (h' : WatchHub) × (publish_entries (some h) es ≡ some h')
        × Publish.IsValid h'
        × (h'.history ≡ histories h.history (events_of es))
  unfolding publish_entries histories
  publish_entries_ok [] h v = (h, refl, v, refl)
  publish_entries_ok (e ∷ es) h v =
      elim (Option-cases (payload_event e.entry_type e.payload e.index)) [
        | inl absent ↦
            let (h', run, v', hist) = publish_entries_ok es h v in
            (h', rw (publish_entries, absent, publish_some) run, v', rw absent hist)
        | inr (x, there) ↦
            let (h', run, v', hist) =
              publish_entries_ok es (published x h) (published-IsValid x h v) in
            (
              h',
              rw (publish_entries, there, publish_some, publish_lem x h v) run,
              v',
              rw there hist,
            )
      ]

  new_hub-IsValid : Publish.IsValid new_watch_hub
  unfolding new_watch_hub
  new_hub-IsValid = record { distinct = tt; open_channels = λ id h. absurd cc }

  -- From a new hub, committed entries whose indexes grow from one on are published without a panic;
  -- a subscription that is then answered with an exact replay since a revision gets the events of
  -- the entries behind that index, in order, and no other.
  pub publish_entries_replay :
      (es : List Entry) (since : ℕ) {replay : List WatchEvent}
      → Rising 0 es
      → (h' : WatchHub) × (publish_entries (some new_watch_hub) es ≡ some h')
        × (replay_since h'.history since ≡ (replay, true)
            → replay ≡ later_than since (events_of es))
  unfolding new_watch_hub
  publish_entries_replay es since r =
      let (h', run, v, hist) = publish_entries_ok es new_watch_hub new_hub-IsValid in
      (
        h',
        run,
        λ q.
            replay_exact (events_of es) since (events_of-Growing 0 es r)
              (ap (λ (l : List WatchEvent). replay_since l since) (sym hist) ∙ q),
      )
