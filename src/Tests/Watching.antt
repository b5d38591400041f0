-- ===== src/Tests/Watching.antt =====
-- A hub with watchers, one of them slow.
use stellmap_service.Base.{ℕ, ◌≡◌, refl, true, List, [], ◌∷◌, none, some, arith, pos}
use stellmap_service.Text.{codes}
use stellmap_service.Registry.Watch.{
  append_history, WatchEvent, upsert, WatchHub, new_watch_hub, subscribe_since, unsubscribe,
  publish, begin_publish, offer_all, replay_since, has_id,
}
use stellmap_service.Registry.Watch.Publish.{IsValid, published, publish_lem}
use stellmap_service.Registry.Watch.History.{histories, Growing, later_than, replay_exact}
use stellmap_service.Registry.Watch.Race.{publish_races_unsubscribe}
use stellmap_service.Registry.Watch.Delivery.{
  set_at, handed, World, initial, Reach, here, next, subscribe, publication, Delivers,
  Reach-Delivers,
}

abbrev event : ℕ → WatchEvent
event revision = record {
  revision = revision;
  kind = upsert;
  namespace = codes "prod";
  service = codes "api";
  instance_id = codes "i-1";
  value = none;
}

abbrev events : List WatchEvent
events = event 3 ∷ event 5 ∷ event 6 ∷ []

Growing-events : Growing 0 events
Growing-events = (omega arith, (omega arith, (omega arith, tt)))

events-replayed : replay_since (histories [] events) 4 ≡ (event 5 ∷ event 6 ∷ [], true)
unfolding replay_since append_history histories
events-replayed = refl

replay_exact_example : event 5 ∷ event 6 ∷ [] ≡ later_than 4 events
replay_exact_example = replay_exact events 4 Growing-events events-replayed

-- Watcher 1 holds one event at most.
abbrev one_watcher : WatchHub
one_watcher = (subscribe_since new_watch_hub (pos 1) 0).0

one_watcher-IsValid : IsValid one_watcher
unfolding subscribe_since new_watch_hub
one_watcher-IsValid = record { distinct = (refl, tt); open_channels = λ id m. ground arith }

publish_lem_example : publish (event 3) one_watcher ≡ some (published (event 3) one_watcher)
publish_lem_example = publish_lem (event 3) one_watcher one_watcher-IsValid

one_watcher-has_id : has_id 1 one_watcher.watchers ≡ true
unfolding subscribe_since new_watch_hub
one_watcher-has_id = refl

publish_races_unsubscribe_example :
    offer_all
      (event 3)
      (begin_publish (event 3) one_watcher).1
      (unsubscribe 1 (begin_publish (event 3) one_watcher).0)
    ≡ none
publish_races_unsubscribe_example =
    publish_races_unsubscribe (event 3) one_watcher 1 one_watcher-has_id

abbrev subscribed : World
subscribed = record {
  hub = one_watcher;
  log = [];
  start = set_at initial.start 1 0;
  taken = set_at initial.taken 1 [];
}

abbrev told : World
told = record subscribed { hub = published (event 3) one_watcher; log = event 3 ∷ [] }

-- one watcher, one event
Reach-told : Reach initial told
unfolding subscribe_since new_watch_hub
Reach-told =
    next (next here (subscribe initial (pos 1) 0))
      (publication subscribed (event 3) (published (event 3) one_watcher) publish_lem_example)

Reach-Delivers_example : Delivers told
Reach-Delivers_example = Reach-Delivers Reach-told

told-handed : handed told 1 ≡ event 3 ∷ []
unfolding subscribe_since new_watch_hub
told-handed = refl
