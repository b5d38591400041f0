-- ===== src/Raftnode/Waiters/Answers.antt =====
-- No operation on the channels of the waiters panics or blocks, and each waiter gets its answer.
use stellmap_service.Base.{
  ℕ, ◌<◌, ◌≡◌, ◌≢◌, ◌⊎◌, inl, inr, refl, sym, ap, ◌∙◌, subst, true, List, [], ◌∷◌, none, some,
  arith, if◌then◌else◌, ==_refl, Bool-cases, Option-cases, Result, ok, err,
}
use stellmap_service.Text.{Bytes, eqb}
use stellmap_service.Text.Split.{eqb_iff}
use stellmap_service.GoMap.{lookup, lookup-insert, lookup-delete_if}
use stellmap_service.Raftnode.Waiters.{
  Channel, made_channel, Stuck, send, close, receive, blocks, Waiters, no_waiters, put_channel,
  register, ReadState, without, answer, answer_found, handle_read_states, remove_found,
  remove_waiter,
}

pub record IsValid (w : Waiters) : Type 0 where
  pub waiting :
      (ctx : Bytes) {n : ℕ}
      → lookup ctx w.waiters ≡ some n
      → (n < w.made) × (w.channels n ≡ made_channel)
  pub apart :
      (j k : Bytes) {n : ℕ} → lookup j w.waiters ≡ some n → lookup k w.waiters ≡ some n → j ≡ k

pub no_waiters-IsValid : IsValid no_waiters
unfolding no_waiters lookup
no_waiters-IsValid = record { waiting = λ ctx h. absurd cc; apart = λ j k h q. absurd cc }

pub put_channel-other :
    (n : ℕ) (ch : Channel) (f : ℕ → Channel) (m : ℕ) → n ≢ m → put_channel n ch f m ≡ f m
put_channel-other n ch f m h = ground arith

pub put_channel-same : (n : ℕ) (ch : Channel) (f : ℕ → Channel) → put_channel n ch f n ≡ ch
put_channel-same n ch f = rw (==_refl n)

-- The waiters behind an answer and behind the removal of one: its channel is replaced.
abbrev pub finished : Bytes → ℕ → Channel → Waiters → Waiters
finished ctx n ch w = record {
  waiters = without ctx w.waiters;
  channels = put_channel n ch w.channels;
  made = w.made;
}

pub lookup-without :
    (k ctx : Bytes) (m : List (Bytes × ℕ)) {n : ℕ}
    → lookup k (without ctx m) ≡ some n
    → (lookup k m ≡ some n) × (k ≢ ctx)
lookup-without k ctx m h =
    let q = sym (lookup-delete_if (λ j. eqb j ctx) k m) ∙ h in
    elim (Bool-cases (eqb k ctx)) [
      | inl same ↦ absurd (let r : none ≡ some _ = rw same at q in cc)
      | inr other ↦ (rw other at q, λ e. let r = (eqb_iff k ctx).1 e in absurd cc)
    ]

finished-IsValid :
    (ctx : Bytes) (n : ℕ) (ch : Channel) (w : Waiters)
    → lookup ctx w.waiters ≡ some n
    → IsValid w
    → IsValid (finished ctx n ch w)
finished-IsValid ctx n ch w h v = record {
  waiting = waiting_still;
  apart = λ j k q r.
      v.apart j k (lookup-without j ctx w.waiters q).0 (lookup-without k ctx w.waiters r).0;
}
  where
    waiting_still :
        (k : Bytes) {m : ℕ}
        → lookup k (without ctx w.waiters) ≡ some m
        → (m < w.made) × (put_channel n ch w.channels m ≡ made_channel)
    waiting_still k {m} q =
        let (old, other) = lookup-without k ctx w.waiters q in
        let (below, kept) = v.waiting k old in
        let ne : n ≢ m = λ e. other (v.apart k ctx old (h ∙ ap some e)) in
        (below, put_channel-other n ch w.channels m ne ∙ kept)

pub lookup-registered :
    (k ctx : Bytes) (w : Waiters) {n : ℕ}
    → lookup k (register ctx w).0.waiters ≡ some n
    → ((ctx ≡ k) × (w.made ≡ n)) ⊎ ((ctx ≢ k) × (lookup k w.waiters ≡ some n))
unfolding register
lookup-registered k ctx w h =
    let q = sym (lookup-insert ctx k w.made w.waiters) ∙ h in
    elim (Bool-cases (eqb ctx k)) [
      | inl same ↦ let r : some w.made ≡ some _ = rw same at q in inl ((eqb_iff ctx k).0 same, cc r)
      | inr other ↦ inr (λ e. let r = (eqb_iff ctx k).1 e in absurd cc, rw other at q)
    ]

pub register-IsValid : (ctx : Bytes) (w : Waiters) → IsValid w → IsValid (register ctx w).0
unfolding register
register-IsValid ctx w v = record {
  waiting = λ k q. wait k (lookup-registered k ctx w q);
  apart = λ j k q r. together j k (lookup-registered j ctx w q) (lookup-registered k ctx w r);
}
  where
    wait :
        (k : Bytes) {n : ℕ}
        → ((ctx ≡ k) × (w.made ≡ n)) ⊎ ((ctx ≢ k) × (lookup k w.waiters ≡ some n))
        → (n < (register ctx w).0.made) × ((register ctx w).0.channels n ≡ made_channel)
    wait k (inl (e, made)) =
        subst (λ n. (n < (register ctx w).0.made) × ((register ctx w).0.channels n ≡ made_channel))
          made ((omega arith, put_channel-same w.made made_channel w.channels))
    wait k {n} (inr (ne, old)) =
        let (below, kept) = v.waiting k old in
        let differs : w.made ≢ n = λ e. omega arith in
        (omega arith, put_channel-other w.made made_channel w.channels n differs ∙ kept)

    together :
        (j k : Bytes) {n : ℕ}
        → ((ctx ≡ j) × (w.made ≡ n)) ⊎ ((ctx ≢ j) × (lookup j w.waiters ≡ some n))
        → ((ctx ≡ k) × (w.made ≡ n)) ⊎ ((ctx ≢ k) × (lookup k w.waiters ≡ some n))
        → j ≡ k
    together j k (inl (e, _)) (inl (e', _)) = sym e ∙ e'
    together j k (inl (_, made)) (inr (_, old)) =
        let (below, _) = v.waiting k old in absurd (omega arith)
    together j k (inr (_, old)) (inl (_, made)) =
        let (below, _) = v.waiting j old in absurd (omega arith)
    together j k (inr (_, old)) (inr (_, old')) = v.apart j k old old'

-- the channel behind an answer with `index`
abbrev pub answered : ℕ → Channel
answered index = record { value = some index; closed = true }

-- the channel behind a removal
abbrev pub dropped : Channel
dropped = record { value = none; closed = true }

answer-waiting :
    (state : ReadState) (n : ℕ) (w : Waiters)
    → w.channels n ≡ made_channel
    → answer state n w ≡ ok (finished state.request_ctx n (answered state.index) w)
unfolding answer send close
answer-waiting state n w h = rw h

pub remove_found-waiting :
    (ctx : Bytes) (n : ℕ) (w : Waiters)
    → w.channels n ≡ made_channel
    → remove_found (some n) ctx w ≡ ok (finished ctx n dropped w)
unfolding remove_found close
remove_found-waiting ctx n w h = rw h

-- the step of the loop for a state
answer_found-IsValid :
    (state : ReadState) (w : Waiters)
    → IsValid w
    → (w' : Waiters) × (answer_found (lookup state.request_ctx w.waiters) state w ≡ ok w')
      × IsValid w'
unfolding answer_found
answer_found-IsValid state w v = elim (Option-cases (lookup state.request_ctx w.waiters)) [
  | inl absent ↦ (w, rw (absent, answer_found) refl, v)
  | inr (n, there) ↦ (
    finished state.request_ctx n (answered state.index) w,
    rw (there, answer_found) (answer-waiting state n w (v.waiting state.request_ctx there).1),
    finished-IsValid state.request_ctx n (answered state.index) w there v,
  )
]

pub handle_read_states-IsValid :
    (states : List ReadState) (w : Waiters)
    → IsValid w
    → (w' : Waiters) × (handle_read_states states w ≡ ok w') × IsValid w'
unfolding handle_read_states
handle_read_states-IsValid [] w v = (w, refl, v)
handle_read_states-IsValid (state ∷ states) w v =
    let (w1, h1, v1) = answer_found-IsValid state w v in
    let (w2, h2, v2) = handle_read_states-IsValid states w1 v1 in (w2, rw h1 h2, v2)

pub remove_waiter-IsValid :
    (ctx : Bytes) (w : Waiters)
    → IsValid w
    → (w' : Waiters) × (remove_waiter ctx w ≡ ok w') × IsValid w'
unfolding remove_waiter
remove_waiter-IsValid ctx w v = elim (Option-cases (lookup ctx w.waiters)) [
  | inl absent ↦ (w, rw (absent, remove_found) refl, v)
  | inr (n, there) ↦ (
    finished ctx n dropped w,
    rw there (remove_found-waiting ctx n w (v.waiting ctx there).1),
    finished-IsValid ctx n dropped w there v,
  )
]

-- the index of the first state with the context
abbrev first_answer : Bytes → List ReadState → Result Stuck ℕ
first_answer ctx [] = err blocks
first_answer ctx (state ∷ states) =
    if eqb state.request_ctx ctx then ok state.index else first_answer ctx states

-- a channel that no context leads to keeps what it has
pub unreferenced_kept :
    (states : List ReadState) (w : Waiters) (n : ℕ) {w' : Waiters}
    → IsValid w
    → ((ctx : Bytes) → lookup ctx w.waiters ≢ some n)
    → handle_read_states states w ≡ ok w'
    → (w'.made ≡ w.made)
      × (w'.channels n ≡ w.channels n)
      × ((ctx : Bytes) → lookup ctx w'.waiters ≢ some n)
unfolding handle_read_states
unreferenced_kept [] w n {w'} v u h =
    let same : w ≡ w' = cc h in
    (
      ap (λ (x : Waiters). x.made) (sym same),
      ap (λ (x : Waiters). x.channels n) (sym same),
      λ ctx q. u ctx (ap (λ (x : Waiters). lookup ctx x.waiters) same ∙ q),
    )
unreferenced_kept (state ∷ states) w n v u h =
    elim (Option-cases (lookup state.request_ctx w.waiters)) [
      | inl absent ↦ unreferenced_kept states w n v u (rw (absent, answer_found) at h)
      | inr (m, there) ↦
          let w1 = finished state.request_ctx m (answered state.index) w in
          let ne : m ≢ n = λ e. u state.request_ctx (there ∙ ap some e) in
          let q =
            rw (there, answer_found, answer-waiting state m w (v.waiting state.request_ctx there).1)
              at h in
          let u1 : (ctx : Bytes) → lookup ctx w1.waiters ≢ some n =
            λ ctx r. u ctx (lookup-without ctx state.request_ctx w.waiters r).0 in
          let (size, kept, rest) =
            unreferenced_kept states w1 n
              (finished-IsValid state.request_ctx m (answered state.index) w there v) u1 q in
          (size, kept ∙ put_channel-other m (answered state.index) w.channels n ne, rest)
    ]

-- Every waiter that is registered under a context receives the index of the first of the read states
-- with its context, and goes on waiting if there is none.
pub receive-handle_read_states :
    (states : List ReadState) (w : Waiters) (ctx : Bytes) {n : ℕ} {w' : Waiters}
    → IsValid w
    → lookup ctx w.waiters ≡ some n
    → handle_read_states states w ≡ ok w'
    → receive (w'.channels n) ≡ first_answer ctx states
unfolding handle_read_states receive
receive-handle_read_states [] w ctx {n} {w'} v there h =
    let same : w ≡ w' = cc h in
    ap (λ (x : Waiters). receive (x.channels n)) (sym same) ∙ rw (v.waiting ctx there).1
receive-handle_read_states (state ∷ states) w ctx {n} v there h =
    elim (Bool-cases (eqb state.request_ctx ctx)) [
      | inl same ↦
          let at_n : lookup state.request_ctx w.waiters ≡ some n =
            ap (λ k. lookup k w.waiters) ((eqb_iff state.request_ctx ctx).0 same) ∙ there in
          let q =
            rw (at_n, answer_found, answer-waiting state n w (v.waiting state.request_ctx at_n).1)
              at h in
          let w1 = finished state.request_ctx n (answered state.index) w in
          let none_left : (k : Bytes) → lookup k w1.waiters ≢ some n = λ k r.
            let (old, ne) = lookup-without k state.request_ctx w.waiters r in
            ne (v.apart k state.request_ctx old at_n) in
          let (_, kept, _) =
            unreferenced_kept states w1 n
              (finished-IsValid state.request_ctx n (answered state.index) w at_n v) none_left q in
          rw (kept ∙ put_channel-same n (answered state.index) w.channels, same)
      | inr other ↦ elim (Option-cases (lookup state.request_ctx w.waiters)) [
        | inl absent ↦
            rw other
              (receive-handle_read_states states w ctx v there (rw (absent, answer_found) at h))
        | inr (m, found) ↦
            let q =
              rw
                (
                  found,
                  answer_found,
                  answer-waiting state m w (v.waiting state.request_ctx found).1,
                )
                at h in
            let apart : (lookup ctx (without state.request_ctx w.waiters)) ≡ some n =
              lookup-delete_if (λ j. eqb j state.request_ctx) ctx w.waiters
              ∙ ground (arith, eqb_iff ctx state.request_ctx, eqb_iff state.request_ctx ctx) in
            rw other (
              receive-handle_read_states states
                (finished state.request_ctx m (answered state.index) w) ctx
                (finished-IsValid state.request_ctx m (answered state.index) w found v) apart q)
      ]
    ]
