-- ===== src/Raftnode/Waiters.antt =====
-- The callers of `ReadIndex` (internal/raftnode/node.go) that wait for an answer: each has a channel
-- of its own, kept in `n.waiters` under the context of its request. `waitersMu` makes each operation
-- one step.
pub mod Answers
pub mod Shared
use stellmap_service.Base.{
  ℕ, zero, suc, ◌+◌, ◌-◌, ◌*◌, ◌/◌, ◌%◌, ◌^◌, ◌≤◌, ◌<◌, ◌≡◌, ◌≢◌, ◌↔◌, ◌⊎◌, inl, inr, refl, sym, ap,
  ap₂, ◌∙◌, subst, fun_ext, Bool, true, false, not, ◌&&◌, ◌||◌, List, [], ◌∷◌, ◌++◌, map, reverse,
  append-nil, append_assoc, reverse-append, reverse-reverse, Option, none, some, arith, ltb, leb,
  ◌==◌, if◌then◌else◌, ==_refl, ==→eq, Bool-cases, Option-cases, &&-true, length, take, drop,
  get_last?, select, any, All, length-append, length-drop, take-append-drop, select-append,
  length-select, All-append, ℤ, pos, negsuc, pos_part, neg_part, sub_ℕ, ◌+ℤ◌, ◌≤ℤ◌, int_leb,
  IsInt64, wrap_int64, wrap_int64_of_IsInt64, wrap_int64-IsInt64, Result, ok, err, ◌>>=◌,
  bind-eq-ok,
}
use stellmap_service.Text.{Bytes, codes, eqb}
use stellmap_service.GoMap.{lookup, insert, delete_if}
use stellmap_service.Storage.Uint64.{format_uint}

-- a `chan uint64` of capacity one
pub record Channel : Type 0 where
  pub value : Option ℕ
  pub closed : Bool

abbrev pub made_channel : Channel
made_channel = record { value = none; closed = false }

-- what an operation on a channel does that does not return
pub data Stuck : Type 0 where
  panics blocks : Stuck

-- `ch <- index`
unfoldable pub send : ℕ → Channel → Result Stuck Channel
send index ch = if ch.closed then err panics else elim ch.value [
  | some _ ↦ err blocks
  | none ↦ ok (record { value = some index; closed = false })
]

-- `close(ch)`
unfoldable pub close : Channel → Result Stuck Channel
close ch = if ch.closed then err panics else ok (record { value = ch.value; closed = true })

-- `<-ch`: a closed channel without a value gives zero
unfoldable pub receive : Channel → Result Stuck ℕ
receive ch = elim ch.value [ some index ↦ ok index | none ↦ if ch.closed then ok 0 else err blocks ]

-- `waiters` holds channels by their number, `made` is the number of those made so far
pub record Waiters : Type 0 where
  pub waiters : List (Bytes × ℕ)
  pub channels : ℕ → Channel
  pub made : ℕ

unfoldable pub no_waiters : Waiters
no_waiters = record { waiters = []; channels = λ n. made_channel; made = 0 }

abbrev pub put_channel : ℕ → Channel → (ℕ → Channel) → ℕ → Channel
put_channel n ch f m = if n == m then ch else f m

-- the request context of `ReadIndex`, with the counter behind it
unfoldable request_context : Bytes → ℕ → Bytes × ℕ
request_context [] counter =
    (codes "read-index-" ++ format_uint ((counter + 1) % 2 ^ 64), (counter + 1) % 2 ^ 64)
request_context (b ∷ bs) counter = (b ∷ bs, counter)

-- `n.waiters[string(requestCtx)] = waiter`, with the number of the new channel
unfoldable pub register : Bytes → Waiters → Waiters × ℕ
register ctx w = (
  record {
    waiters = insert ctx w.made w.waiters;
    channels = put_channel w.made made_channel w.channels;
    made = w.made + 1;
  },
  w.made,
)

pub record ReadState : Type 0 where
  pub index : ℕ
  pub request_ctx : Bytes

abbrev pub without : Bytes → List (Bytes × ℕ) → List (Bytes × ℕ)
without ctx m = delete_if (λ k. eqb k ctx) m

-- the body of the loop of `handleReadStates` for a waiter that is there
unfoldable pub answer : ReadState → ℕ → Waiters → Result Stuck Waiters
unfolding send close
answer state n w = do
  sent ← send state.index (w.channels n)
  closed ← close sent
  ok (record {
    waiters = without state.request_ctx w.waiters;
    channels = put_channel n closed w.channels;
    made = w.made;
  })

unfoldable pub answer_found : Option ℕ → ReadState → Waiters → Result Stuck Waiters
unfolding answer
answer_found none state w = ok w
answer_found (some n) state w = answer state n w

unfoldable pub handle_read_states : List ReadState → Waiters → Result Stuck Waiters
unfolding answer_found lookup
handle_read_states [] w = ok w
handle_read_states (state ∷ states) w = do
  w' ← answer_found (lookup state.request_ctx w.waiters) state w
  handle_read_states states w'

unfoldable pub remove_found : Option ℕ → Bytes → Waiters → Result Stuck Waiters
unfolding close
remove_found none ctx w = ok w
remove_found (some n) ctx w = do
  closed ← close (w.channels n)
  ok (record {
    waiters = without ctx w.waiters;
    channels = put_channel n closed w.channels;
    made = w.made;
  })

unfoldable pub remove_waiter : Bytes → Waiters → Result Stuck Waiters
unfolding remove_found lookup
remove_waiter ctx w = remove_found (lookup ctx w.waiters) ctx w
