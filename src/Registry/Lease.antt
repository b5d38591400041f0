-- ===== src/Registry/Lease.antt =====
-- Leases: `EffectiveLeaseTTLSeconds` and `IsAlive`, with the wrap-around of `int64`.
use stellmap_service.Base.{
  ◌^◌, ◌≡◌, ◌↔◌, Bool, true, false, arith, if◌then◌else◌, ℤ, pos, negsuc, ◌+ℤ◌, ◌≤ℤ◌, int_leb,
  IsInt64, wrap_int64, wrap_int64_of_IsInt64,
}
use stellmap_service.Registry.Types.{Value}

abbrev default_lease_ttl_seconds : ℤ
default_lease_ttl_seconds = pos 30

unfoldable pub effective_lease_ttl_seconds : ℤ → ℤ
effective_lease_ttl_seconds ttl = if int_leb ttl (pos 0) then default_lease_ttl_seconds else ttl

-- the heartbeat that the lease is counted from
unfoldable pub last_heartbeat : Value → ℤ
last_heartbeat v =
    if int_leb v.last_heartbeat_unix (pos 0) then v.registered_at_unix else v.last_heartbeat_unix

unfoldable pub is_alive : Value → ℤ → Bool
is_alive v now =
    if int_leb now (pos 0)
    then true
    else if int_leb (last_heartbeat v) (pos 0)
    then true
    else int_leb now
        (wrap_int64 (last_heartbeat v +ℤ effective_lease_ttl_seconds v.lease_ttl_seconds))

pub effective_ttl_pos : (ttl : ℤ) → pos 1 ≤ℤ effective_lease_ttl_seconds ttl
unfolding effective_lease_ttl_seconds
effective_ttl_pos (pos n) = ground arith
effective_ttl_pos (negsuc n) = ground arith

pub effective_ttl_idempotent :
    (ttl : ℤ)
    → effective_lease_ttl_seconds (effective_lease_ttl_seconds ttl)
      ≡ effective_lease_ttl_seconds ttl
unfolding effective_lease_ttl_seconds
effective_ttl_idempotent (pos n) = ground arith
effective_ttl_idempotent (negsuc n) = ground arith

-- the second at which the lease ends, as a mathematical integer
abbrev pub lease_end : Value → ℤ
lease_end v = last_heartbeat v +ℤ effective_lease_ttl_seconds v.lease_ttl_seconds

-- As long as its end fits an `int64`, an instance whose heartbeat is positive is alive at a positive
-- clock reading exactly up to the end of its lease.
pub is_alive_iff :
    (v : Value) (now : ℤ)
    → pos 1 ≤ℤ now
    → pos 1 ≤ℤ last_heartbeat v
    → IsInt64 (lease_end v)
    → (is_alive v now ≡ true) ↔ (now ≤ℤ lease_end v)
unfolding is_alive
is_alive_iff v now hn hb fit =
    let w = wrap_int64_of_IsInt64 (lease_end v) fit in
    (λ e. ground (arith, w), λ e. ground (arith, w))

effective_ttl-IsInt64 : (ttl : ℤ) → IsInt64 ttl → IsInt64 (effective_lease_ttl_seconds ttl)
unfolding effective_lease_ttl_seconds
effective_ttl-IsInt64 (pos n) h = ground arith
effective_ttl-IsInt64 (negsuc n) h = ground arith

wrap_overflow :
    (a b : ℤ)
    → pos 1 ≤ℤ a
    → pos 1 ≤ℤ b
    → IsInt64 a
    → IsInt64 b
    → pos (2 ^ 63) ≤ℤ a +ℤ b
    → wrap_int64 (a +ℤ b) ≤ℤ negsuc 0
unfolding wrap_int64
wrap_overflow (pos a) (pos b) ha hb ia ib over = ground arith
wrap_overflow (pos a) (negsuc b) ha hb ia ib over = absurd (omega arith)
wrap_overflow (negsuc a) b ha hb ia ib over = absurd (omega arith)

-- Where heartbeat and TTL fit an `int64` and their sum does not, the sum wraps to a negative number:
-- an instance with a positive heartbeat counts as expired at every positive clock reading.
is_alive_overflow :
    (v : Value) (now : ℤ)
    → pos 1 ≤ℤ now
    → pos 1 ≤ℤ last_heartbeat v
    → IsInt64 (last_heartbeat v)
    → IsInt64 v.lease_ttl_seconds
    → pos (2 ^ 63) ≤ℤ lease_end v
    → is_alive v now ≡ false
unfolding is_alive
is_alive_overflow v now hn hb i1 i2 over =
    let w =
      wrap_overflow (last_heartbeat v) (effective_lease_ttl_seconds v.lease_ttl_seconds) hb
        (effective_ttl_pos v.lease_ttl_seconds) i1 (effective_ttl-IsInt64 v.lease_ttl_seconds i2)
        over in
    ground arith
