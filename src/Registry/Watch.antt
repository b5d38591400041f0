-- ===== src/Registry/Watch.antt =====
-- internal/registry/watch.go: the hub that passes committed changes on to its watchers.
-- A channel is a buffer at an address, the watcher's id, which the hub never uses twice: what
-- `Publish` and an unsubscribe function hold on to is that address. `none` is a Go panic.
pub mod History
pub mod Ids
pub mod Publish
pub mod Delivery
pub mod Race
use stellmap_service.Base.{
  ℕ, zero, suc, ◌+◌, ◌-◌, ◌*◌, ◌/◌, ◌%◌, ◌^◌, ◌≤◌, ◌<◌, ◌≡◌, ◌≢◌, ◌↔◌, ◌⊎◌, inl, inr, refl, sym, ap,
  ap₂, ◌∙◌, subst, fun_ext, Bool, true, false, not, ◌&&◌, ◌||◌, List, [], ◌∷◌, ◌++◌, map, reverse,
  append-nil, append_assoc, reverse-append, reverse-reverse, Option, none, some, arith, ltb, leb,
  ◌==◌, if◌then◌else◌, ==_refl, ==→eq, Bool-cases, Option-cases, &&-true, length, take, drop,
  get_last?, select, any, All, length-append, length-drop, take-append-drop, select-append,
  length-select, All-append, ℤ, pos, negsuc, pos_part, neg_part, sub_ℕ, ◌+ℤ◌, ◌≤ℤ◌, int_leb,
  IsInt64, wrap_int64, wrap_int64_of_IsInt64, wrap_int64-IsInt64, Result, ok, err, ◌>>=◌,
  bind-eq-ok,
}
use stellmap_service.Text.{Bytes}
use stellmap_service.Registry.Types.{Value}

pub data WatchEventType : Type 0 where
  upsert delete : WatchEventType

pub record WatchEvent : Type 0 where
  pub revision : ℕ
  pub kind : WatchEventType
  pub namespace : Bytes
  pub service : Bytes
  pub instance_id : Bytes
  pub value : Option Value

-- a buffered channel: what was sent and not yet received
pub record Channel : Type 0 where
  pub capacity : ℕ
  pub queue : List WatchEvent
  pub closed : Bool

pub record WatchHub : Type 0 where
  pub next_id : ℕ
  pub watchers : List ℕ
  pub channels : ℕ → Channel
  pub history : List WatchEvent

abbrev pub history_limit : ℕ
history_limit = 2048

abbrev pub has_id : ℕ → List ℕ → Bool
has_id id [] = false
has_id id (j ∷ ids) = if j == id then true else has_id id ids

abbrev pub remove_id : ℕ → List ℕ → List ℕ
remove_id id [] = []
remove_id id (j ∷ ids) = let rest = remove_id id ids in if j == id then rest else j ∷ rest

abbrev pub update : (ℕ → Channel) → ℕ → Channel → ℕ → Channel
update channels id c j = if j == id then c else channels j

-- what stands at an address that no watcher has had
abbrev idle_channel : Channel
idle_channel = record { capacity = 0; queue = []; closed = true }

unfoldable pub new_watch_hub : WatchHub
new_watch_hub = record { next_id = 0; watchers = []; channels = λ _. idle_channel; history = [] }

unfoldable pub append_history : WatchEvent → List WatchEvent → List WatchEvent
append_history event history =
    let longer = history ++ event ∷ [] in
    if ltb history_limit (length longer)
    then drop (length longer - history_limit) longer
    else longer

-- the revision of the last event, `x` if there is no other
abbrev pub last_revision : ℕ → List WatchEvent → ℕ
last_revision x [] = x
last_revision x (e ∷ es) = last_revision e.revision es

-- the events, and whether the history reaches back to `since`
unfoldable pub replay_since : List WatchEvent → ℕ → List WatchEvent × Bool
replay_since [] since = ([], false)
replay_since (e ∷ es) since =
    if since == 0
    then ([], false)
    else if ltb (last_revision e.revision es) since
    then ([], true)
    else if ltb ((since + 1) % 2 ^ 64) e.revision
    then ([], false)
    else (select (λ x. ltb since x.revision) (e ∷ es), true)

-- The new hub, the id, the replay and whether it is exact.
unfoldable pub subscribe_since : WatchHub → ℤ → ℕ → WatchHub × ℕ × List WatchEvent × Bool
unfolding replay_since
subscribe_since h buffer since =
    let id = (h.next_id + 1) % 2 ^ 64 in
    let capacity = if int_leb buffer (pos 0) then 64 else pos_part buffer in
    let c : Channel = record { capacity = capacity; queue = []; closed = false } in
    let (replay, exact) = replay_since h.history since in
    (
      record {
        next_id = id;
        watchers = id ∷ remove_id id h.watchers;
        channels = update h.channels id c;
        history = h.history;
      },
      id,
      replay,
      exact,
    )

-- the new hub and the id
unfoldable pub subscribe : WatchHub → ℤ → WatchHub × ℕ
unfolding subscribe_since
subscribe h buffer = let (h', id, replay, exact) = subscribe_since h buffer 0 in (h', id)

-- `delete(h.watchers, id)` and `close(ch)`, if the watcher is still there
unfoldable pub close_watcher : ℕ → WatchHub → WatchHub
close_watcher id h =
    if has_id id h.watchers
    then record h {
      watchers = remove_id id h.watchers;
      channels = update h.channels id (record (h.channels id) { closed = true });
    }
    else h

-- The function that `SubscribeSince` returns. `sync.Once` makes its later calls empty, as the
-- test of the map does.
unfoldable pub unsubscribe : ℕ → WatchHub → WatchHub
unsubscribe id h = close_watcher id h

-- The first critical section of `Publish`: the hub, and the watchers that it copies.
unfoldable pub begin_publish : WatchEvent → WatchHub → WatchHub × List ℕ
unfolding append_history
begin_publish event h = (record h { history = append_history event h.history }, h.watchers)

pub data Offer : Type 0 where
  sent slow panicked : Offer

-- `select { case ch <- event: default: }`
unfoldable pub offer : WatchEvent → Channel → Channel × Offer
offer event c =
    if c.closed
    then (c, panicked)
    else if ltb (length c.queue) c.capacity
    then (record c { queue = c.queue ++ event ∷ [] }, sent)
    else (c, slow)

-- what the loop goes on with after one offer, `id` being slow, or sent to
unfoldable pub after_offer : Offer → ℕ → Option (WatchHub × List ℕ) → Option (WatchHub × List ℕ)
after_offer sent id rest = rest
after_offer slow id none = none
after_offer slow id (some (h, ids)) = some (h, id ∷ ids)
after_offer panicked id rest = none

-- the loop over the copied watchers, with the slow ones that it collects
unfoldable pub offer_all : WatchEvent → List ℕ → WatchHub → Option (WatchHub × List ℕ)
unfolding after_offer
offer_all event [] h = some (h, [])
offer_all event (id ∷ ids) h =
    let (c, result) = offer event (h.channels id) in
    after_offer result id (offer_all event ids (record h { channels = update h.channels id c }))

-- the second critical section
unfoldable pub close_slow : List ℕ → WatchHub → WatchHub
unfolding close_watcher
close_slow [] h = h
close_slow (id ∷ ids) h = close_slow ids (close_watcher id h)

-- `Publish` with nothing in between its steps
unfoldable pub publish : WatchEvent → WatchHub → Option WatchHub
unfolding begin_publish offer_all offer close_slow
publish event h =
    let (h', ids) = begin_publish event h in
    elim (offer_all event ids h') [
      | none ↦ none
      | some (h'', slow_ids) ↦ some (close_slow slow_ids h'')
    ]

take_first : ℕ → WatchHub → List WatchEvent → WatchHub × Option WatchEvent
take_first id h [] = (h, none)
take_first id h (e ∷ es) =
    (record h { channels = update h.channels id (record (h.channels id) { queue = es }) }, some e)

-- A consumer takes the first event of its buffer, if there is one.
unfoldable pub receive : ℕ → WatchHub → WatchHub × Option WatchEvent
unfolding take_first
receive id h = take_first id h (h.channels id).queue
