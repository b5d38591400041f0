-- ===== src/Registry/Watch/Race.antt =====
-- `Publish` sends outside its critical sections: a watcher that unsubscribes between the copy of
-- the watchers and the loop makes it send on a closed channel.
use stellmap_service.Base.{
  ℕ, ◌≡◌, inl, inr, refl, sym, subst, true, false, List, [], ◌∷◌, none, arith, ◌==◌, ==_refl, ==→eq,
  Bool-cases,
}
use stellmap_service.Registry.Watch.{
  WatchEvent, Channel, WatchHub, has_id, update, close_watcher, unsubscribe, begin_publish, offer,
  Offer, sent, slow, panicked, after_offer, offer_all,
}

offer_closed : (e : WatchEvent) (c : Channel) → c.closed ≡ true → offer e c ≡ (c, panicked)
unfolding offer
offer_closed e c h = rw h

offer-closed_flag : (e : WatchEvent) (c : Channel) → (offer e c).0.closed ≡ c.closed
unfolding offer
offer-closed_flag e c = ground arith

after_offer-none : (r : Offer) (id : ℕ) → after_offer r id none ≡ none
unfolding after_offer
after_offer-none sent id = refl
after_offer-none slow id = refl
after_offer-none panicked id = refl

-- The loop over the copied watchers panics if the channel of one of them is closed.
offer_all_closed :
    (e : WatchEvent) (id : ℕ) (ids : List ℕ) (h : WatchHub)
    → has_id id ids ≡ true
    → (h.channels id).closed ≡ true
    → offer_all e ids h ≡ none
unfolding offer_all
offer_all_closed e id [] h m c = absurd cc
offer_all_closed e id (j ∷ ids) h m c = elim (Bool-cases (j == id)) [
  | inl same ↦
      let p : id ≡ j = sym (==→eq j id same) in
      rw (offer_closed e (h.channels j) (subst (λ k. (h.channels k).closed ≡ true) p c)) refl
  | inr other ↦
      let h' : WatchHub = record h { channels = update h.channels j (offer e (h.channels j)).0 } in
      let flip : (id == j) ≡ false = ground arith in
      rw (offer_all_closed e id ids h' (ground arith) (rw flip c))
        (after_offer-none (offer e (h.channels j)).1 j)
]

-- For every event, every hub and every watcher of it: if the watcher unsubscribes after `Publish`
-- has copied the watchers and before it offers the event, the publication panics.
pub publish_races_unsubscribe :
    (e : WatchEvent) (h : WatchHub) (id : ℕ)
    → has_id id h.watchers ≡ true
    → offer_all e (begin_publish e h).1 (unsubscribe id (begin_publish e h).0) ≡ none
unfolding begin_publish unsubscribe close_watcher
publish_races_unsubscribe e h id m = rw m (offer_all_closed e id h.watchers _ m (rw (==_refl id)))
