-- ===== src/Raftnode/Waiters/Shared.antt =====
-- Sequences of registrations, answers and removals, and two requests with one context.
use stellmap_service.Base.{
  ℕ, ◌≤◌, ◌<◌, ◌≡◌, ◌≢◌, inl, inr, sym, ap, ◌∙◌, subst, List, [], ◌∷◌, Option, none, some, arith,
  Option-cases, Result, ok, err, bind-eq-ok,
}
use stellmap_service.Text.{Bytes}
use stellmap_service.GoMap.{lookup}
use stellmap_service.Raftnode.Waiters.{
  Stuck, Channel, made_channel, receive, blocks, Waiters, no_waiters, register, ReadState,
  handle_read_states, remove_found, remove_waiter, answer_found, answer, send, close,
}
use stellmap_service.Raftnode.Waiters.Answers.{
  IsValid, no_waiters-IsValid, register-IsValid, handle_read_states-IsValid, remove_waiter-IsValid,
  unreferenced_kept, remove_found-waiting, finished, dropped, put_channel-other, put_channel-same,
  lookup-registered, lookup-without,
}

pub data Step : Waiters → Waiters → Type 0 where
  registers : {w : Waiters} (ctx : Bytes) → Step w (register ctx w).0
  answers :
      {w w' : Waiters} (states : List ReadState) → handle_read_states states w ≡ ok w' → Step w w'
  gives_up : {w w' : Waiters} (ctx : Bytes) → remove_waiter ctx w ≡ ok w' → Step w w'

pub data Reach (w : Waiters) : Waiters → Type 0 where
  here : Reach w w
  next : {u v : Waiters} → Reach w u → Step u v → Reach w v

Step-IsValid : {w w' : Waiters} → Step w w' → IsValid w → IsValid w'
Step-IsValid (registers {w} ctx) v = register-IsValid ctx w v
Step-IsValid (answers {w} {w'} states h) v =
    let (u, q, valid) = handle_read_states-IsValid states w v in
    let same : u ≡ w' = let r = sym q ∙ h in cc r in subst IsValid same valid
Step-IsValid (gives_up {w} {w'} ctx h) v =
    let (u, q, valid) = remove_waiter-IsValid ctx w v in
    let same : u ≡ w' = let r = sym q ∙ h in cc r in subst IsValid same valid

Reach-IsValid : {w w' : Waiters} → Reach w w' → IsValid w → IsValid w'
Reach-IsValid here v = v
Reach-IsValid (next r s) v = Step-IsValid s (Reach-IsValid r v)

-- After any sequence of registrations, answers and removals, the next batch of read states and the
-- next removal go through: no send blocks, and no channel is closed twice or sent to when closed.
pub Reach_never_stuck :
    {w : Waiters} (ctx : Bytes) (states : List ReadState)
    → Reach no_waiters w
    → ((w' : Waiters) × (handle_read_states states w ≡ ok w'))
      × ((w' : Waiters) × (remove_waiter ctx w ≡ ok w'))
Reach_never_stuck {w} ctx states r =
    let v = Reach-IsValid r no_waiters-IsValid in
    let (a, h, _) = handle_read_states-IsValid states w v in
    let (b, q, _) = remove_waiter-IsValid ctx w v in ((a, h), (b, q))

-- A channel that waits and to which no context leads.
abbrev IsLost : ℕ → Waiters → Type 0
IsLost n w =
    (n < w.made) × (w.channels n ≡ made_channel) × ((ctx : Bytes) → lookup ctx w.waiters ≢ some n)

finished-IsLost :
    (ctx : Bytes) (m n : ℕ) (ch : Channel) (w : Waiters)
    → lookup ctx w.waiters ≡ some m
    → IsLost n w
    → IsLost n (finished ctx m ch w)
finished-IsLost ctx m n ch w there (below, kept, u) =
    let ne : m ≢ n = λ e. u ctx (there ∙ ap some e) in
    (
      below,
      put_channel-other m ch w.channels n ne ∙ kept,
      λ k r. u k (lookup-without k ctx w.waiters r).0,
    )

register-IsLost : (ctx : Bytes) (n : ℕ) (w : Waiters) → IsLost n w → IsLost n (register ctx w).0
unfolding register
register-IsLost ctx n w (below, kept, u) =
    let ne : w.made ≢ n = λ e. omega arith in
    (omega arith, put_channel-other w.made made_channel w.channels n ne ∙ kept, unled)
  where
    unled : (k : Bytes) → lookup k (register ctx w).0.waiters ≢ some n
    unled k r = elim (lookup-registered k ctx w r) [
      | inl (_, made) ↦ absurd (omega arith)
      | inr (_, old) ↦ absurd (u k old)
    ]

Step-IsLost : {w w' : Waiters} (n : ℕ) → Step w w' → IsValid w → IsLost n w → IsLost n w'
unfolding remove_waiter
Step-IsLost n (registers {w} ctx) v l = register-IsLost ctx n w l
Step-IsLost n (answers {w} {w'} states h) v (below, kept, u) =
    let (size, same, unled) = unreferenced_kept states w n v u h in
    (subst (λ m. n < m) (sym size) below, same ∙ kept, unled)
Step-IsLost n (gives_up {w} {w'} ctx h) v l = elim (Option-cases (lookup ctx w.waiters)) [
  | inl absent ↦
      let same : w ≡ w' = let q = rw (absent, remove_found) at h in cc q in subst (IsLost n) same l
  | inr (m, there) ↦
      let same : finished ctx m dropped w ≡ w' =
        let q = rw (there, remove_found-waiting ctx m w (v.waiting ctx there).1) at h in cc q in
      subst (IsLost n) same (finished-IsLost ctx m n dropped w there l)
]

Reach-IsLost : {w w' : Waiters} (n : ℕ) → Reach w w' → IsValid w → IsLost n w → IsLost n w'
Reach-IsLost n here v l = l
Reach-IsLost n (next r s) v l = Step-IsLost n s (Reach-IsValid r v) (Reach-IsLost n r v l)

register_again-IsLost :
    (w : Waiters) (ctx : Bytes) {n : ℕ}
    → IsValid w
    → lookup ctx w.waiters ≡ some n
    → IsLost n (register ctx w).0
unfolding register
register_again-IsLost w ctx {n} v there =
    let (below, kept) = v.waiting ctx there in
    let ne : w.made ≢ n = λ e. omega arith in
    (omega arith, put_channel-other w.made made_channel w.channels n ne ∙ kept, unled)
  where
    unled : (k : Bytes) → lookup k (register ctx w).0.waiters ≢ some n
    unled k r =
        let (below, _) = v.waiting ctx there in
        elim (lookup-registered k ctx w r) [
          | inl (_, made) ↦ absurd (omega arith)
          | inr (ne, old) ↦ absurd (ne (v.apart ctx k there old))
        ]

-- When a second reader registers under the context of a reader that waits, the first one is never
-- answered: after any further registrations, answers and removals it still blocks.
pub register_again_blocks :
    {w w' : Waiters} (ctx : Bytes) {n : ℕ}
    → Reach no_waiters w
    → lookup ctx w.waiters ≡ some n
    → Reach (register ctx w).0 w'
    → receive (w'.channels n) ≡ err blocks
unfolding receive
register_again_blocks {w} ctx {n} r there q =
    let v = Reach-IsValid r no_waiters-IsValid in
    let (_, kept, _) =
      Reach-IsLost n q (register-IsValid ctx w v) (register_again-IsLost w ctx v there) in
    rw kept

ok-made : (w w' : Waiters) → ◌≡◌ {A = Result Stuck Waiters} (ok w) (ok w') → w'.made ≡ w.made
ok-made w w' h = let e : w ≡ w' = cc h in ap (λ (u : Waiters). u.made) (sym e)

answer_found-made :
    (o : Option ℕ) (state : ReadState) (w : Waiters) {w' : Waiters}
    → answer_found o state w ≡ ok w'
    → w'.made ≡ w.made
unfolding answer_found answer
answer_found-made none state w {w'} h = ok-made w w' h
answer_found-made (some n) state w h =
    let (sent, _, h1) = bind-eq-ok (send state.index (w.channels n)) _ h in
    let (closed, _, h2) = bind-eq-ok (close sent) _ h1 in ok-made _ _ h2

handle_read_states-made :
    (states : List ReadState) (w : Waiters) {w' : Waiters}
    → handle_read_states states w ≡ ok w'
    → w'.made ≡ w.made
unfolding handle_read_states
handle_read_states-made [] w {w'} h = ok-made w w' h
handle_read_states-made (state ∷ states) w h =
    let (u, here_same, h1) =
      bind-eq-ok (answer_found (lookup state.request_ctx w.waiters) state w) _ h in
    handle_read_states-made states u h1 ∙ answer_found-made _ state w here_same

remove_found-made :
    (o : Option ℕ) (ctx : Bytes) (w : Waiters) {w' : Waiters}
    → remove_found o ctx w ≡ ok w'
    → w'.made ≡ w.made
unfolding remove_found
remove_found-made none ctx w {w'} h = ok-made w w' h
remove_found-made (some n) ctx w h =
    let (closed, _, h1) = bind-eq-ok (close (w.channels n)) _ h in ok-made _ _ h1

-- Channels are never taken back.
Step-made : {w w' : Waiters} → Step w w' → w.made ≤ w'.made
unfolding register remove_waiter
Step-made (registers {w} ctx) = omega arith
Step-made (answers {w} states h) = omega (arith, handle_read_states-made states w h)
Step-made (gives_up {w} ctx h) = omega (arith, remove_found-made _ ctx w h)

Reach-made : {w w' : Waiters} → Reach w w' → w.made ≤ w'.made
Reach-made here = omega arith
Reach-made (next r s) = omega (arith, Reach-made r, Step-made s)

-- Two readers register under one context, with any registrations, answers and removals before,
-- between and behind. When the first one gives up while the second one waits, the second one, which
-- is another reader, reads index zero, and no error.
pub give_up_wakes_other :
    {w u v : Waiters} (ctx : Bytes)
    → Reach no_waiters w
    → Reach (register ctx w).0 u
    → Reach (register ctx u).0 v
    → lookup ctx v.waiters ≡ some (register ctx u).1
    → ((register ctx w).1 < (register ctx u).1)
      × ((v' : Waiters) × (remove_waiter ctx v ≡ ok v')
          × (receive (v'.channels (register ctx u).1) ≡ ok 0))
unfolding register receive remove_waiter
give_up_wakes_other {w} {u} {v} ctx before between behind there =
    let valid_w = Reach-IsValid before no_waiters-IsValid in
    let valid_u = Reach-IsValid between (register-IsValid ctx w valid_w) in
    let valid_v = Reach-IsValid behind (register-IsValid ctx u valid_u) in
    (
      omega (arith, Reach-made between),
      (
        finished ctx u.made dropped v,
        rw there (remove_found-waiting ctx u.made v (valid_v.waiting ctx there).1),
        ap receive (put_channel-same u.made dropped v.channels),
      ),
    )
