-- ===== src/Registry/Watch/Delivery.antt =====
-- No watcher ever misses an event: the hub under any sequence of its operations.
use stellmap_service.Base.{
  ℕ, ◌+◌, ◌%◌, ◌^◌, ◌≤◌, ◌≡◌, inl, inr, refl, sym, ap, ◌∙◌, subst, true, ◌&&◌, List, [], ◌∷◌, ◌++◌,
  append-nil, append_assoc, some, arith, ◌==◌, if◌then◌else◌, ==_refl, ==→eq, Bool-cases, &&-true,
  length, drop, length-append, ℤ,
}
use stellmap_service.Registry.Watch.History.{drop-append_le}
use stellmap_service.Registry.Watch.Ids.{NodupIds, has_id-remove_id, has_id-select}
use stellmap_service.Registry.Watch.{
  WatchEvent, WatchHub, has_id, remove_id, update, new_watch_hub, subscribe_since, close_watcher,
  unsubscribe, publish, take_first, receive,
}
use stellmap_service.Registry.Watch.Publish.{
  has_room, IsValid, published, publish_lem, published-IsValid,
}

-- A hub with what has happened: all that was published, how much of it had been when each watcher
-- subscribed, and what each consumer has taken from its channel.
pub record World : Type 0 where
  pub hub : WatchHub
  pub log : List WatchEvent
  pub start : ℕ → ℕ
  pub taken : ℕ → List WatchEvent

abbrev pub initial : World
initial = record { hub = new_watch_hub; log = []; start = λ _. 0; taken = λ _. [] }

abbrev pub set_at {ℓ} : {A : Type ℓ} → (ℕ → A) → ℕ → A → ℕ → A
set_at f id a j = if j == id then a else f j

abbrev new_id : WatchHub → ℕ
new_id h = (h.next_id + 1) % 2 ^ 64

-- One operation of the hub or of a consumer. The operations stand in any order.
pub data Step : World → World → Type 0 where
  subscribe :
      (w : World) (buffer : ℤ) (since : ℕ)
      → Step w (record {
        hub = (subscribe_since w.hub buffer since).0;
        log = w.log;
        start = set_at w.start (new_id w.hub) (length w.log);
        taken = set_at w.taken (new_id w.hub) [];
      })
  leave : (w : World) (id : ℕ) → Step w (record w { hub = unsubscribe id w.hub })
  publication :
      (w : World) (e : WatchEvent) (h : WatchHub)
      → publish e w.hub ≡ some h
      → Step w (record w { hub = h; log = w.log ++ e ∷ [] })
  consume :
      (w : World) (id : ℕ) (e : WatchEvent) (h : WatchHub)
      → receive id w.hub ≡ (h, some e)
      → Step w (record w { hub = h; taken = set_at w.taken id (w.taken id ++ e ∷ []) })

pub data Reach (w : World) : World → Type 0 where
  here : Reach w w
  next : {u v : World} → Reach w u → Step u v → Reach w v

-- What watcher `id` has been handed so far: what its consumer took, and what waits in its buffer.
abbrev pub handed : World → ℕ → List WatchEvent
handed w id = w.taken id ++ (w.hub.channels id).queue

-- A live watcher was handed all that was published since it subscribed; any watcher was handed an
-- unbroken beginning of that.
pub record Delivers (w : World) : Type 0 where
  pub valid : IsValid w.hub
  pub started : (id : ℕ) → w.start id ≤ length w.log
  pub live : (id : ℕ) → has_id id w.hub.watchers ≡ true → handed w id ≡ drop (w.start id) w.log
  pub gapless :
      (id : ℕ) → (rest : List WatchEvent) × (drop (w.start id) w.log ≡ handed w id ++ rest)

initial-Delivers : Delivers initial
unfolding new_watch_hub
initial-Delivers = record {
  valid = record { distinct = tt; open_channels = λ id m. absurd cc };
  started = λ id. omega arith;
  live = λ id m. absurd cc;
  gapless = λ id. ([], refl);
}

NodupIds-remove_id : (id : ℕ) (ids : List ℕ) → NodupIds ids → NodupIds (remove_id id ids)
NodupIds-remove_id id [] d = tt
NodupIds-remove_id id (j ∷ ids) (fresh, d) =
    let rest = NodupIds-remove_id id ids d in
    elim (Bool-cases (j == id)) [
      | inl e ↦ rw e rest
      | inr e ↦ rw e (has_id-remove_id id j ids ∙ rw (e, fresh), rest)
    ]

-- A closed watcher keeps what its buffer holds.
close_watcher-queue :
    (id j : ℕ) (h : WatchHub) → ((close_watcher id h).channels j).queue ≡ (h.channels j).queue
unfolding close_watcher
close_watcher-queue id j h = elim (Bool-cases (has_id id h.watchers)) [
  | inr out ↦ rw out
  | inl live ↦ rw live (elim (Bool-cases (j == id)) [
    | inl same ↦ rw same (ap (λ (k : ℕ). (h.channels k).queue) (sym (==→eq j id same)))
    | inr other ↦ rw other
  ])
]

close_watcher-IsValid : (id : ℕ) (h : WatchHub) → IsValid h → IsValid (close_watcher id h)
unfolding close_watcher
close_watcher-IsValid id h v = elim (Bool-cases (has_id id h.watchers)) [
  | inr out ↦ rw out v
  | inl live ↦ rw live (record {
    distinct = NodupIds-remove_id id h.watchers v.distinct;
    open_channels = λ j m. elim (Bool-cases (j == id)) [
      | inl same ↦ absurd (let q = has_id-remove_id id j h.watchers in ground arith)
      | inr other ↦
          rw other (v.open_channels j (let q = has_id-remove_id id j h.watchers in ground arith))
    ];
  })
]

has_id-close_watcher :
    (id j : ℕ) (h : WatchHub)
    → has_id j (close_watcher id h).watchers ≡ true
    → has_id j h.watchers ≡ true
unfolding close_watcher
has_id-close_watcher id j h m = ground (arith, has_id-remove_id id j h.watchers)

drop-length : (xs : List WatchEvent) → drop (length xs) xs ≡ []
drop-length [] = refl
drop-length (x ∷ xs) = drop-length xs

take_first_inv :
    (id : ℕ) (h : WatchHub) (queue : List WatchEvent) {h' : WatchHub} {e : WatchEvent}
    → take_first id h queue ≡ (h', some e)
    → (es : List WatchEvent) × (queue ≡ e ∷ es)
      × (h' ≡ record h { channels = update h.channels id (record (h.channels id) { queue = es }) })
unfolding take_first
take_first_inv id h [] q = absurd cc
take_first_inv id h (x ∷ xs) q = (xs, ground arith, ground arith)

module _ (w : World) (d : Delivers w) where
  leave-Delivers : (id : ℕ) → Delivers (record w { hub = unsubscribe id w.hub })
  unfolding unsubscribe
  leave-Delivers id = record {
    valid = close_watcher-IsValid id w.hub d.valid;
    started = d.started;
    live =
        λ j m. rw (close_watcher-queue id j w.hub) (d.live j (has_id-close_watcher id j w.hub m));
    gapless = λ j. rw (close_watcher-queue id j w.hub) (d.gapless j);
  }

  subscribe-Delivers :
      (buffer : ℤ) (since : ℕ)
      → Delivers (record {
        hub = (subscribe_since w.hub buffer since).0;
        log = w.log;
        start = set_at w.start (new_id w.hub) (length w.log);
        taken = set_at w.taken (new_id w.hub) [];
      })
  unfolding subscribe_since
  subscribe-Delivers buffer since =
      let id : ℕ = new_id w.hub in
      record {
        valid = record {
          distinct = (
            has_id-remove_id id id w.hub.watchers ∙ rw (==_refl id),
            NodupIds-remove_id id w.hub.watchers d.valid.distinct,
          );
          open_channels = λ j m. elim (Bool-cases (j == id)) [
            | inl same ↦ rw same
            | inr other ↦ rw other (
                d.valid.open_channels j
                  (let q = has_id-remove_id id j w.hub.watchers in ground arith))
          ];
        };
        started = λ j. elim (Bool-cases (j == id)) [
          | inl same ↦ rw same (omega arith)
          | inr other ↦ rw other (d.started j)
        ];
        live = λ j m. elim (Bool-cases (j == id)) [
          | inl same ↦ rw same (sym (drop-length w.log))
          | inr other ↦
              rw other (d.live j (let q = has_id-remove_id id j w.hub.watchers in ground arith))
        ];
        gapless = λ j. elim (Bool-cases (j == id)) [
          | inl same ↦ rw same ([], drop-length w.log)
          | inr other ↦ rw other (d.gapless j)
        ];
      }

  more :
      (id : ℕ) (e : WatchEvent)
      → drop (w.start id) (w.log ++ e ∷ []) ≡ drop (w.start id) w.log ++ e ∷ []
  more id e = drop-append_le (w.start id) w.log (e ∷ []) (d.started id)

  published-gapless :
      (e : WatchEvent) (id : ℕ)
      → (rest : List WatchEvent) × (drop (w.start id) (w.log ++ e ∷ [])
          ≡ (w.taken id ++ ((published e w.hub).channels id).queue) ++ rest)
  published-gapless e id =
      let (rest, q) = d.gapless id in
      let waits : drop (w.start id) (w.log ++ e ∷ []) ≡ handed w id ++ (rest ++ e ∷ []) =
        more id e ∙ rw q (append_assoc (handed w id) rest (e ∷ [])) in
      elim (Bool-cases (has_id id w.hub.watchers)) [
        | inr out ↦ rw out (rest ++ e ∷ [], waits)
        | inl live ↦ elim (Bool-cases (has_room (w.hub.channels id))) [
          | inr full ↦ rw (live, full) (rest ++ e ∷ [], waits)
          | inl room ↦
              rw (live, room)
                ([], more id e ∙ rw (← d.live id live) (simp (append_assoc, append-nil)))
        ]
      ]

  published-live :
      (e : WatchEvent) (id : ℕ)
      → has_id id (published e w.hub).watchers ≡ true
      → w.taken id ++ ((published e w.hub).channels id).queue ≡ drop (w.start id) (w.log ++ e ∷ [])
  published-live e id m =
      let both : (has_id id w.hub.watchers && has_room (w.hub.channels id)) ≡ true =
        sym (has_id-select (λ j. has_room (w.hub.channels j)) id w.hub.watchers) ∙ m in
      let (live, room) = &&-true (has_id id w.hub.watchers) (has_room (w.hub.channels id)) both in
      rw (live, room, more id e)
        (rw (← d.live id live)
          (sym (append_assoc (w.taken id) ((w.hub.channels id).queue) (e ∷ []))))

  publication-Delivers :
      (e : WatchEvent) (h : WatchHub)
      → publish e w.hub ≡ some h
      → Delivers (record w { hub = h; log = w.log ++ e ∷ [] })
  publication-Delivers e h q =
      let same : published e w.hub ≡ h = cc (publish_lem e w.hub d.valid) in
      subst (λ g. Delivers (record w { hub = g; log = w.log ++ e ∷ [] })) same
        (record {
          valid = published-IsValid e w.hub d.valid;
          started = λ id. omega (arith, d.started id, length-append w.log (e ∷ []));
          live = published-live e;
          gapless = published-gapless e;
        })

  consume-Delivers :
      (id : ℕ) (e : WatchEvent) (h : WatchHub)
      → receive id w.hub ≡ (h, some e)
      → Delivers (record w { hub = h; taken = set_at w.taken id (w.taken id ++ e ∷ []) })
  unfolding receive
  consume-Delivers id e h q =
      let (es, held, same) = take_first_inv id w.hub ((w.hub.channels id).queue) q in
      let h' : WatchHub = record w.hub {
        channels = update w.hub.channels id (record (w.hub.channels id) { queue = es });
      } in
      let w' : World = record w { hub = h'; taken = set_at w.taken id (w.taken id ++ e ∷ []) } in
      let kept : (j : ℕ) → handed w' j ≡ handed w j = λ j. elim (Bool-cases (j == id)) [
        | inl at ↦
            let p : j ≡ id = ==→eq j id at in
            rw p (rw (==_refl id, held) (append_assoc (w.taken id) (e ∷ []) es))
        | inr other ↦ rw other
      ] in
      subst (λ g. Delivers (record w { hub = g; taken = set_at w.taken id (w.taken id ++ e ∷ []) }))
        (sym same)
        (record {
          valid = record {
            distinct = d.valid.distinct;
            open_channels = λ j m. elim (Bool-cases (j == id)) [
              | inl at ↦
                  let p : j ≡ id = ==→eq j id at in rw at (rw (← p) (d.valid.open_channels j m))
              | inr other ↦ rw other (d.valid.open_channels j m)
            ];
          };
          started = d.started;
          live = λ j m. kept j ∙ d.live j m;
          gapless = λ j.
              let (rest, g) = d.gapless j in
              (rest, g ∙ ap (λ (l : List WatchEvent). l ++ rest) (sym (kept j)));
        })

Step-Delivers : {u v : World} → Step u v → Delivers u → Delivers v
Step-Delivers (subscribe w buffer since) d = subscribe-Delivers w d buffer since
Step-Delivers (leave w id) d = leave-Delivers w d id
Step-Delivers (publication w e h q) d = publication-Delivers w d e h q
Step-Delivers (consume w id e h q) d = consume-Delivers w d id e h q

-- From a new hub, after any sequence of subscriptions, publications, unsubscriptions and
-- receptions, each publication with nothing in between its steps, the hub is valid, every watcher
-- that it still has was handed exactly what was published since it subscribed, in order, and every
-- other one an unbroken beginning of that.
pub Reach-Delivers : {w : World} → Reach initial w → Delivers w
Reach-Delivers here = initial-Delivers
Reach-Delivers (next r s) = Step-Delivers s (Reach-Delivers r)
