-- ===== src/Transport/Writing/Renewal.antt =====
-- What an accepted registration and an accepted heartbeat leave in the state machine.
use stellmap_service.Base.{
  ◌≡◌, ◌↔◌, inl, inr, ap, ◌∙◌, Bool, true, not, [], ◌∷◌, Option, some, arith, if◌then◌else◌,
  Bool-cases, ℤ, pos, negsuc, ◌+ℤ◌, ◌≤ℤ◌, int_leb, IsInt64, ok,
}
use stellmap_service.Text.{Bytes, trim}
use stellmap_service.Text.Split.{eqb_refl}
use stellmap_service.Storage.{Command}
use stellmap_service.Storage.Memory.{MemoryStateMachine, apply}
use stellmap_service.Storage.Memory.Laws.{content, apply-content}
use stellmap_service.Registry.Types.{Value, RegisterInput, ServiceIdentity}
use stellmap_service.Registry.ServiceName.{normalize_structured_service_identity}
use stellmap_service.Registry.Register.{normalize_register_input, new_value}
use stellmap_service.Registry.Lease.{
  effective_lease_ttl_seconds, is_alive, is_alive_iff, last_heartbeat, effective_ttl_idempotent,
}
use stellmap_service.Registry.Keys.{key}
use stellmap_service.Raftnode.Node.{Status}
use stellmap_service.Transport.Writing.{
  accepted, ensure_writable, propose, put_command, register_normalized, register_instance,
  some_blank, renewed, renew_decoded, renew_read, heartbeat_named, heartbeat,
}

propose_lem :
    (refuses : Command → Bool) (c : Command) {cmd : Command}
    → propose refuses c ≡ (accepted, some cmd)
    → c ≡ cmd
unfolding propose
propose_lem refuses c h = ground arith

put-content :
    (m : MemoryStateMachine) (k v : Bytes) → content (apply m (put_command k v)).0 k ≡ some v
unfolding put_command
put-content m k v = apply-content m (put_command k v) k ∙ rw (eqb_refl k)

-- The TTL after a heartbeat: the requested one, or the TTL the instance had, or the default.
abbrev granted : ℤ → ℤ → ℤ
granted held ttl = if int_leb (pos 1) ttl then ttl else effective_lease_ttl_seconds held

stored :
    (m : MemoryStateMachine) (k v : Bytes) {cmd : Command}
    → put_command k v ≡ cmd
    → content (apply m cmd).0 k ≡ some v
stored m k v e = rw (← e) (put-content m k v)

granted_effective :
    (held ttl : ℤ) → effective_lease_ttl_seconds (granted held ttl) ≡ granted held ttl
unfolding effective_lease_ttl_seconds
granted_effective (pos a) (pos b) = ground arith
granted_effective (pos a) (negsuc b) = ground arith
granted_effective (negsuc a) (pos b) = ground arith
granted_effective (negsuc a) (negsuc b) = ground arith

granted_lem :
    (held ttl : ℤ)
    → (if not (int_leb ttl (pos 0))
        then ttl
        else if int_leb held (pos 0)
        then effective_lease_ttl_seconds held
        else held)
      ≡ granted held ttl
unfolding effective_lease_ttl_seconds
granted_lem (pos a) (pos b) = ground arith
granted_lem (pos a) (negsuc b) = ground arith
granted_lem (negsuc a) (pos b) = ground arith
granted_lem (negsuc a) (negsuc b) = ground arith

counted : (v : Value) → pos 1 ≤ℤ v.last_heartbeat_unix → last_heartbeat v ≡ v.last_heartbeat_unix
unfolding last_heartbeat
counted v h = ground arith

-- A lease counts from a positive heartbeat, whatever else the value holds.
is_alive-renewed :
    (v : Value) (t : ℤ)
    → pos 1 ≤ℤ v.last_heartbeat_unix
    → pos 1 ≤ℤ t
    → IsInt64 (v.last_heartbeat_unix +ℤ effective_lease_ttl_seconds v.lease_ttl_seconds)
    → (is_alive v t ≡ true)
      ↔ (t ≤ℤ v.last_heartbeat_unix +ℤ effective_lease_ttl_seconds v.lease_ttl_seconds)
is_alive-renewed v t hn ht fit =
    let e = counted v hn in
    let (forth, back) = is_alive_iff v t ht (rw e hn) (rw e fit) in
    (λ a. let q = forth a in let p = rw e at q in p, λ l. back (rw e l))

module _ (encode : Value → Bytes) (decode : Bytes → Option Value) (refuses : Command → Bool)
    (st : Status) (now : ℤ) where
  register_normalized_lem :
      (i : RegisterInput) {cmd : Command}
      → register_normalized encode decode refuses st now (ok i) ≡ (accepted, some cmd)
      → put_command (key i.namespace i.identity.service i.instance_id) (encode (new_value i now))
        ≡ cmd
  unfolding register_normalized
  register_normalized_lem i h =
      elim (Bool-cases (some_blank i.namespace i.identity.service i.instance_id)) [
        | inl blank ↦ absurd (let q = rw blank at h in cc)
        | inr named ↦ elim (Bool-cases (ensure_writable st)) [
          | inr unwritable ↦ absurd (let q = rw (named, unwritable) at h in cc)
          | inl writable ↦ propose_lem refuses _ (let q = rw (named, writable) at h in q)
        ]
      ]

  -- Once the command of an accepted registration is applied, the key reads as the new value, and the
  -- instance is alive exactly up to the end of its lease, where the clock is positive and this end
  -- fits an `int64`.
  pub register_instance-alive :
      (input i : RegisterInput) {cmd : Command} (m : MemoryStateMachine) (t : ℤ)
      → normalize_register_input input ≡ ok i
      → register_instance encode decode refuses st now input ≡ (accepted, some cmd)
      → pos 1 ≤ℤ now
      → pos 1 ≤ℤ t
      → IsInt64 (now +ℤ effective_lease_ttl_seconds i.lease_ttl_seconds)
      → (content (apply m cmd).0 (key i.namespace i.identity.service i.instance_id)
          ≡ some (encode (new_value i now)))
        × ((is_alive (new_value i now) t ≡ true)
            ↔ (t ≤ℤ now +ℤ effective_lease_ttl_seconds i.lease_ttl_seconds))
  unfolding register_instance new_value
  register_instance-alive input i m t n h hn ht fit =
      let made = register_normalized_lem i (rw n at h) in
      let same = effective_ttl_idempotent i.lease_ttl_seconds in
      let (forth, back) = is_alive-renewed (new_value i now) t hn ht (rw same fit) in
      (
        stored m _ _ made,
        (λ a. let q = forth a in let p = rw same at q in p, λ l. back (rw same l)),
      )

  renew_read_lem :
      (k bs : Bytes) (ttl : ℤ) (v : Value) {cmd : Command}
      → decode bs ≡ some v
      → renew_read encode decode refuses st now k ttl (some bs) ≡ (accepted, some cmd)
      → put_command k (encode (renewed encode decode refuses st now v ttl)) ≡ cmd
  unfolding renew_read renew_decoded
  renew_read_lem k [] ttl v d h = absurd cc
  renew_read_lem k (b ∷ bs) ttl v d h = propose_lem refuses _ (rw d at h)

  heartbeat_named_lem :
      (read : Bytes → Option Bytes) (namespace instance_id : Bytes) (ttl : ℤ) (i : ServiceIdentity)
      (bs : Bytes) (v : Value) {cmd : Command}
      → read (key namespace i.service instance_id) ≡ some bs
      → decode bs ≡ some v
      → heartbeat_named encode decode refuses st now read namespace instance_id ttl (ok i)
        ≡ (accepted, some cmd)
      → put_command
          (key namespace i.service instance_id)
          (encode (renewed encode decode refuses st now v ttl))
        ≡ cmd
  unfolding heartbeat_named
  heartbeat_named_lem read ns id ttl i bs v r d h = elim (Bool-cases (some_blank ns i.service id)) [
    | inl blank ↦ absurd (let q = rw blank at h in cc)
    | inr named ↦ elim (Bool-cases (int_leb (pos 0) ttl)) [
      | inr below ↦ absurd (let q = rw (named, below) at h in cc)
      | inl fine ↦ elim (Bool-cases (ensure_writable st)) [
        | inr unwritable ↦ absurd (let q = rw (named, fine, unwritable) at h in cc)
        | inl writable ↦
            renew_read_lem (key ns i.service id) bs ttl v d
              (let q = rw (named, fine, writable, r) at h in q)
      ]
    ]
  ]

  renewed_lem :
      (v : Value) (ttl : ℤ)
      → renewed encode decode refuses st now v ttl ≡ record v {
        lease_ttl_seconds = granted v.lease_ttl_seconds ttl;
        last_heartbeat_unix = now;
      }
  unfolding renewed effective_lease_ttl_seconds
  renewed_lem v ttl =
      ap (λ l. record v { lease_ttl_seconds = l; last_heartbeat_unix = now })
        (granted_lem v.lease_ttl_seconds ttl)

  -- Once the command of an accepted heartbeat for a stored instance is applied, the key reads as the
  -- renewed value, which differs in the heartbeat and the lease only, and the instance is alive
  -- exactly up to the end of its lease, where the clock is positive and this end fits an `int64`.
  pub heartbeat-alive :
      (read : Bytes → Option Bytes) (namespace : Bytes) (identity i : ServiceIdentity)
      (instance_id : Bytes) (ttl : ℤ) (bs : Bytes) (v : Value) {cmd : Command}
      (m : MemoryStateMachine) (t : ℤ)
      → normalize_structured_service_identity identity ≡ ok i
      → read (key (trim namespace) i.service (trim instance_id)) ≡ some bs
      → decode bs ≡ some v
      → heartbeat encode decode refuses st now read namespace identity instance_id ttl
        ≡ (accepted, some cmd)
      → pos 1 ≤ℤ now
      → pos 1 ≤ℤ t
      → IsInt64 (now +ℤ granted v.lease_ttl_seconds ttl)
      → (content (apply m cmd).0 (key (trim namespace) i.service (trim instance_id))
          ≡ some (
              encode (record v {
                lease_ttl_seconds = granted v.lease_ttl_seconds ttl;
                last_heartbeat_unix = now;
              })))
        × ((is_alive
                (record v {
                  lease_ttl_seconds = granted v.lease_ttl_seconds ttl;
                  last_heartbeat_unix = now;
                })
                t
              ≡ true)
            ↔ (t ≤ℤ now +ℤ granted v.lease_ttl_seconds ttl))
  unfolding heartbeat
  heartbeat-alive read ns identity i id ttl bs v m t n r d h hn ht fit =
      let e = renewed_lem v ttl in
      let made = heartbeat_named_lem read (trim ns) (trim id) ttl i bs v r d (rw n at h) in
      let same = granted_effective v.lease_ttl_seconds ttl in
      let w = record v {
        lease_ttl_seconds = granted v.lease_ttl_seconds ttl;
        last_heartbeat_unix = now;
      } in
      let (forth, back) = is_alive-renewed w t hn ht (rw same fit) in
      (
        stored m _ _ (rw e at made),
        (λ a. let q = forth a in let p = rw same at q in p, λ l. back (rw same l)),
      )
