-- ===== src/Transport/Writing/Leader.antt =====
-- The write handlers on a node that does not lead.
use stellmap_service.Base.{
  ◌≡◌, ◌≢◌, ◌⊎◌, inl, inr, refl, Bool, false, ◌&&◌, Option, none, arith, ◌==◌, Bool-cases, ℤ, pos,
  int_leb, Result, ok, err,
}
use stellmap_service.Text.{Bytes, trim}
use stellmap_service.Storage.{Command}
use stellmap_service.Registry.Types.{Value, RegisterInput, ServiceIdentity, Error}
use stellmap_service.Registry.ServiceName.{normalize_structured_service_identity}
use stellmap_service.Registry.Register.{normalize_register_input}
use stellmap_service.Raftnode.Node.{Status}
use stellmap_service.Raftnode.Ready.{Role, leader, follower, candidate, learner, no_role}
use stellmap_service.App.Cleanup.{is_leader_role}
use stellmap_service.Transport.Writing.{
  Outcome, bad_request, unavailable, ensure_writable, some_blank, register_normalized,
  register_instance, deregister_named, deregister, heartbeat_named, heartbeat,
}

-- refused without a command
abbrev pub IsRefused : Outcome → Type 0
IsRefused o = (o ≡ (bad_request, none)) ⊎ (o ≡ (unavailable, none))

-- the status of a node that does not lead
abbrev pub IsNotLeader : Status → Type 0
IsNotLeader st = (st.role ≢ leader) ⊎ (st.leader_id ≢ st.node_id)

ensure_writable-IsNotLeader : (st : Status) → IsNotLeader st → ensure_writable st ≡ false
unfolding ensure_writable is_leader_role
ensure_writable-IsNotLeader st (inl h) = by_role st.role h
  where
    by_role : (r : Role) → r ≢ leader → (is_leader_role r && st.leader_id == st.node_id) ≡ false
    by_role leader ne = absurd (ne refl)
    by_role follower ne = refl
    by_role candidate ne = refl
    by_role learner ne = refl
    by_role no_role ne = refl
ensure_writable-IsNotLeader st (inr h) = ground arith

module _ (encode : Value → Bytes) (decode : Bytes → Option Value) (refuses : Command → Bool)
    (st : Status) (now : ℤ) where
  register_normalized-IsRefused :
      (r : Result Error RegisterInput)
      → ensure_writable st ≡ false
      → IsRefused (register_normalized encode decode refuses st now r)
  unfolding register_normalized
  register_normalized-IsRefused (err e) h = inl refl
  register_normalized-IsRefused (ok i) h =
      elim (Bool-cases (some_blank i.namespace i.identity.service i.instance_id)) [
        | inl blank ↦ inl (rw blank refl)
        | inr named ↦ inr (rw (named, h) refl)
      ]

  deregister_named-IsRefused :
      (namespace instance_id : Bytes) (r : Result Error ServiceIdentity)
      → ensure_writable st ≡ false
      → IsRefused (deregister_named encode decode refuses st now namespace instance_id r)
  unfolding deregister_named
  deregister_named-IsRefused namespace instance_id (err e) h = inl refl
  deregister_named-IsRefused namespace instance_id (ok i) h =
      elim (Bool-cases (some_blank namespace i.service instance_id)) [
        | inl blank ↦ inl (rw blank refl)
        | inr named ↦ inr (rw (named, h) refl)
      ]

  heartbeat_named-IsRefused :
      (read : Bytes → Option Bytes) (namespace instance_id : Bytes) (ttl : ℤ)
      (r : Result Error ServiceIdentity)
      → ensure_writable st ≡ false
      → IsRefused (heartbeat_named encode decode refuses st now read namespace instance_id ttl r)
  unfolding heartbeat_named
  heartbeat_named-IsRefused read namespace instance_id ttl (err e) h = inl refl
  heartbeat_named-IsRefused read namespace instance_id ttl (ok i) h =
      elim (Bool-cases (some_blank namespace i.service instance_id)) [
        | inl blank ↦ inl (rw blank refl)
        | inr named ↦ elim (Bool-cases (int_leb (pos 0) ttl)) [
          | inr below ↦ inl (rw (named, below) refl)
          | inl fine ↦ inr (rw (named, fine, h) refl)
        ]
      ]

  -- A node whose role is not that of the leader, or whose leader is another node, refuses every
  -- registration, deregistration and heartbeat, as a bad request or as unavailable, and proposes no
  -- command.
  pub not_leader-IsRefused :
      (input : RegisterInput) (read : Bytes → Option Bytes) (namespace instance_id : Bytes)
      (identity : ServiceIdentity) (ttl : ℤ)
      → IsNotLeader st
      → IsRefused (register_instance encode decode refuses st now input)
        × IsRefused (deregister encode decode refuses st now namespace identity instance_id)
        × IsRefused (heartbeat encode decode refuses st now read namespace identity instance_id ttl)
  unfolding register_instance deregister heartbeat
  not_leader-IsRefused input read namespace instance_id identity ttl not_leading =
      let h = ensure_writable-IsNotLeader st not_leading in
      (
        register_normalized-IsRefused (normalize_register_input input) h,
        deregister_named-IsRefused (trim namespace) (trim instance_id)
            (normalize_structured_service_identity identity) h,
        heartbeat_named-IsRefused read (trim namespace) (trim instance_id) ttl
            (normalize_structured_service_identity identity) h,
      )
