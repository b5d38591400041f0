-- ===== src/Registry/Watch/Publish.antt =====
-- One `Publish` with nothing in between: every watcher with room gets the event, every other one
-- is closed and removed, and nothing else changes.
use stellmap_service.Base.{
  ℕ, ◌≡◌, inl, inr, refl, sym, ap, ◌∙◌, fun_ext, Bool, true, false, not, ◌&&◌, List, [], ◌∷◌, ◌++◌,
  some, arith, ltb, ◌==◌, if◌then◌else◌, ==_refl, ==→eq, Bool-cases, &&-true, length, select,
}
use stellmap_service.Registry.Watch.Ids.{
  NodupIds, has_id-remove_id, remove_id_absent, has_id-select, NodupIds-select, remove_ids,
  remove_ids-select,
}
use stellmap_service.Registry.Watch.{
  WatchEvent, Channel, WatchHub, has_id, remove_id, update, append_history, begin_publish, sent,
  slow, offer, offer_all, close_slow, publish,
}

abbrev pub has_room : Channel → Bool
has_room c = ltb (length c.queue) c.capacity

abbrev push : WatchEvent → Channel → Channel
push e c = record c { queue = c.queue ++ e ∷ [] }

abbrev pub close : Channel → Channel
close c = record c { closed = true }

-- The watchers are distinct, and their channels are open.
pub record IsValid (h : WatchHub) : Type 0 where
  pub distinct : NodupIds h.watchers
  pub open_channels : (id : ℕ) → has_id id h.watchers ≡ true → (h.channels id).closed ≡ false

abbrev offered : WatchEvent → List ℕ → (ℕ → Channel) → ℕ → Channel
offered e ids channels id =
    if has_id id ids
    then if has_room (channels id) then push e (channels id) else channels id
    else channels id

abbrev full_ids : List ℕ → (ℕ → Channel) → List ℕ
full_ids ids channels = select (λ id. not (has_room (channels id))) ids

full_ids-update :
    (ids : List ℕ) (channels : ℕ → Channel) (id : ℕ) (c : Channel)
    → has_id id ids ≡ false
    → full_ids ids (update channels id c) ≡ full_ids ids channels
full_ids-update [] channels id c h = refl
full_ids-update (j ∷ ids) channels id c h =
    let ne : (j == id) ≡ false = ground arith in
    rw (ne, full_ids-update ids channels id c (ground arith))

offered-cons :
    (e : WatchEvent) (id : ℕ) (ids : List ℕ) (channels : ℕ → Channel) (c : Channel)
    → has_id id ids ≡ false
    → c ≡ (if has_room (channels id) then push e (channels id) else channels id)
    → offered e ids (update channels id c) ≡ offered e (id ∷ ids) channels
offered-cons e id ids channels c h q = fun_ext (λ j. elim (Bool-cases (j == id)) [
  | inl same ↦ let p : j ≡ id = ==→eq j id same in rw p (rw (h, ==_refl id, q))
  | inr other ↦ let flip : (id == j) ≡ false = ground arith in rw (other, flip)
])

offer_room :
    (e : WatchEvent) (c : Channel)
    → c.closed ≡ false
    → has_room c ≡ true
    → offer e c ≡ (push e c, sent)
unfolding offer
offer_room e c o r = rw (o, r)

offer_full :
    (e : WatchEvent) (c : Channel) → c.closed ≡ false → has_room c ≡ false → offer e c ≡ (c, slow)
unfolding offer
offer_full e c o r = rw (o, r)

still_open :
    (id : ℕ) (ids : List ℕ) (channels : ℕ → Channel) (c : Channel)
    → has_id id ids ≡ false
    → ((j : ℕ) → has_id j (id ∷ ids) ≡ true → (channels j).closed ≡ false)
    → (j : ℕ) → has_id j ids ≡ true
    → (update channels id c j).closed ≡ false
still_open id ids channels c fresh o j m = elim (Bool-cases (j == id)) [
  | inl same ↦ absurd (let p : j ≡ id = ==→eq j id same in ground arith)
  | inr other ↦ rw other (o j (let flip : (id == j) ≡ false = ground arith in rw flip m))
]

offer_all_lem :
    (e : WatchEvent) (ids : List ℕ) (h : WatchHub)
    → NodupIds ids
    → ((id : ℕ) → has_id id ids ≡ true → (h.channels id).closed ≡ false)
    → offer_all e ids h
      ≡ some (record h { channels = offered e ids h.channels }, full_ids ids h.channels)
unfolding offer_all
offer_all_lem e [] h d o = refl
offer_all_lem e (id ∷ ids) h (fresh, d) o =
    let c : Channel = h.channels id in
    let is_open : c.closed ≡ false = o id (rw (==_refl id)) in
    elim (Bool-cases (has_room c)) [
      | inl room ↦
          let ih =
            offer_all_lem e ids (record h { channels = update h.channels id (push e c) }) d
              (still_open id ids h.channels (push e c) fresh o) in
          rw (
            offer_room e c is_open room,
            ih,
            full_ids-update ids h.channels id (push e c) fresh,
            offered-cons e id ids h.channels (push e c) fresh (rw room),
            room,
          )
      | inr full ↦
          let ih =
            offer_all_lem e ids (record h { channels = update h.channels id c }) d
              (still_open id ids h.channels c fresh o) in
          rw (
            offer_full e c is_open full,
            ih,
            full_ids-update ids h.channels id c fresh,
            offered-cons e id ids h.channels c fresh (rw full),
            full,
          )
    ]

closed_at : List ℕ → List ℕ → (ℕ → Channel) → ℕ → Channel
closed_at ids watchers channels id =
    if has_id id ids && has_id id watchers then close (channels id) else channels id

closed_at-live :
    (id : ℕ) (ids watchers : List ℕ) (channels : ℕ → Channel)
    → has_id id ids ≡ false
    → has_id id watchers ≡ true
    → closed_at ids (remove_id id watchers) (update channels id (close (channels id)))
      ≡ closed_at (id ∷ ids) watchers channels
unfolding closed_at
closed_at-live id ids watchers channels fresh live = fun_ext (λ j. elim (Bool-cases (j == id)) [
  | inl same ↦ let p : j ≡ id = ==→eq j id same in rw p (rw (fresh, ==_refl id, live))
  | inr other ↦
      let flip : (id == j) ≡ false = ground arith in
      rw (has_id-remove_id id j watchers) (rw (other, flip))
])

closed_at-gone :
    (id : ℕ) (ids watchers : List ℕ) (channels : ℕ → Channel)
    → has_id id ids ≡ false
    → has_id id watchers ≡ false
    → closed_at ids watchers channels ≡ closed_at (id ∷ ids) watchers channels
unfolding closed_at
closed_at-gone id ids watchers channels fresh gone = fun_ext (λ j. elim (Bool-cases (j == id)) [
  | inl same ↦ let p : j ≡ id = ==→eq j id same in rw p (rw (fresh, ==_refl id, gone))
  | inr other ↦ let flip : (id == j) ≡ false = ground arith in rw flip
])

-- Closing the full watchers: they leave the hub, and their channels are closed.
close_slow_lem :
    (ids : List ℕ) (h : WatchHub)
    → NodupIds ids
    → close_slow ids h ≡ record h {
      watchers = remove_ids ids h.watchers;
      channels = closed_at ids h.watchers h.channels;
    }
unfolding close_slow closed_at
close_slow_lem [] h d = refl
close_slow_lem (id ∷ ids) h (fresh, d) = elim (Bool-cases (has_id id h.watchers)) [
  | inl live ↦
      let c : Channel = close (h.channels id) in
      let h' : WatchHub = record h {
        watchers = remove_id id h.watchers;
        channels = update h.channels id c;
      } in
      rw live (
        close_slow_lem ids h' d
        ∙ ap
            (λ (f : ℕ → Channel). record h {
              watchers = remove_ids ids (remove_id id h.watchers);
              channels = f;
            })
            (closed_at-live id ids h.watchers h.channels fresh live))
  | inr gone ↦
      rw (gone, remove_id_absent id h.watchers gone)
        (close_slow_lem ids h d
          ∙ ap
              (λ (f : ℕ → Channel). record h { watchers = remove_ids ids h.watchers; channels = f })
              (closed_at-gone id ids h.watchers h.channels fresh gone))
]

-- What one publication does to the hub: the event joins the history; a watcher with room in its
-- buffer has the event behind what it holds; a watcher without is closed and leaves the hub; no
-- other channel changes.
abbrev pub published : WatchEvent → WatchHub → WatchHub
published e h = record h {
  watchers = select (λ id. has_room (h.channels id)) h.watchers;
  channels = λ id.
      if has_id id h.watchers
      then if has_room (h.channels id) then push e (h.channels id) else close (h.channels id)
      else h.channels id;
  history = append_history e h.history;
}

channels-published :
    (e : WatchEvent) (h : WatchHub)
    → closed_at (full_ids h.watchers h.channels) h.watchers (offered e h.watchers h.channels)
      ≡ (published e h).channels
unfolding closed_at
channels-published e h = fun_ext (λ j.
    rw (has_id-select (λ id. not (has_room (h.channels id))) j h.watchers)
      (elim (Bool-cases (has_id j h.watchers)) [
        | inr out ↦ rw out
        | inl live ↦ elim (Bool-cases (has_room (h.channels j))) [
          | inl room ↦ rw (live, room)
          | inr full ↦ rw (live, full)
        ]
      ]))

-- On a valid hub `Publish`, with nothing in between its steps, never panics. The event joins the
-- history and the buffer of each watcher that has room for it; each watcher without room is removed
-- and its channel closed, and nothing else changes.
pub publish_lem : (e : WatchEvent) (h : WatchHub) → IsValid h → publish e h ≡ some (published e h)
unfolding publish begin_publish
publish_lem e h v =
    let h1 : WatchHub = record h { history = append_history e h.history } in
    let slow_ids : List ℕ = full_ids h.watchers h.channels in
    let step1 = offer_all_lem e h.watchers h1 v.distinct v.open_channels in
    let step2 =
      close_slow_lem slow_ids (record h1 { channels = offered e h.watchers h.channels })
        (NodupIds-select (λ id. not (has_room (h.channels id))) h.watchers v.distinct) in
    rw (step1, step2, remove_ids-select (λ id. has_room (h.channels id)) h.watchers v.distinct)
      (ap (λ (f : ℕ → Channel). some (record (published e h) { channels = f }))
        (channels-published e h))

pub published-IsValid : (e : WatchEvent) (h : WatchHub) → IsValid h → IsValid (published e h)
published-IsValid e h v = record {
  distinct = NodupIds-select (λ id. has_room (h.channels id)) h.watchers v.distinct;
  open_channels = λ id m.
      let both : (has_id id h.watchers && has_room (h.channels id)) ≡ true =
        sym (has_id-select (λ j. has_room (h.channels j)) id h.watchers) ∙ m in
      let (live, room) = &&-true (has_id id h.watchers) (has_room (h.channels id)) both in
      rw (live, room) (v.open_channels id live);
}
