-- ===== src/Transport/Writing.antt =====
-- `Register`, `Deregister` and `Heartbeat` (internal/transport/http/handlers_impl.go), from the decoded
-- request to the reply and to the command that Raft took. JSON and Raft's answer are parameters.
pub mod Leader
pub mod Renewal
use stellmap_service.Base.{
  ℕ, zero, suc, ◌+◌, ◌-◌, ◌*◌, ◌/◌, ◌%◌, ◌^◌, ◌≤◌, ◌<◌, ◌≡◌, ◌≢◌, ◌↔◌, ◌⊎◌, inl, inr, refl, sym, ap,
  ap₂, ◌∙◌, subst, fun_ext, Bool, true, false, not, ◌&&◌, ◌||◌, List, [], ◌∷◌, ◌++◌, map, reverse,
  append-nil, append_assoc, reverse-append, reverse-reverse, Option, none, some, arith, ltb, leb,
  ◌==◌, if◌then◌else◌, ==_refl, ==→eq, Bool-cases, Option-cases, &&-true, length, take, drop,
  get_last?, select, any, All, length-append, length-drop, take-append-drop, select-append,
  length-select, All-append, ℤ, pos, negsuc, pos_part, neg_part, sub_ℕ, ◌+ℤ◌, ◌≤ℤ◌, int_leb,
  IsInt64, wrap_int64, wrap_int64_of_IsInt64, wrap_int64-IsInt64, Result, ok, err, ◌>>=◌,
  bind-eq-ok,
}
use stellmap_service.Text.{Bytes, eqb, trim}
use stellmap_service.Storage.{put, Command}
use stellmap_service.Registry.Types.{Value, RegisterInput, ServiceIdentity, Error}
use stellmap_service.Registry.ServiceName.{normalize_structured_service_identity}
use stellmap_service.Registry.Register.{normalize_register_input, new_value}
use stellmap_service.Registry.Lease.{effective_lease_ttl_seconds}
use stellmap_service.Registry.Keys.{key}
use stellmap_service.Raftnode.Node.{Status}
use stellmap_service.App.Cleanup.{is_leader_role, delete_command}

pub data Reply : Type 0 where
  accepted bad_request unavailable not_found internal_error : Reply

-- the reply, and the command whose proposal did not fail
abbrev pub Outcome : Type 0
Outcome = Reply × Option Command

unfoldable pub ensure_writable : Status → Bool
ensure_writable st = is_leader_role st.role && st.leader_id == st.node_id

unfoldable pub propose : (Command → Bool) → Command → Outcome
propose refuses cmd = if refuses cmd then (internal_error, none) else (accepted, some cmd)

abbrev pub some_blank : Bytes → Bytes → Bytes → Bool
some_blank namespace service instance_id =
    eqb namespace [] || (eqb service [] || eqb instance_id [])

unfoldable pub put_command : Bytes → Bytes → Command
put_command key value = record { operation = put; key = key; value = value; prefix = [] }

module _ (encode : Value → Bytes) (decode : Bytes → Option Value) (refuses : Command → Bool)
    (st : Status) (now : ℤ) where
  unfoldable pub register_normalized : Result Error RegisterInput → Outcome
  unfolding propose ensure_writable put_command
  register_normalized (err e) = (bad_request, none)
  register_normalized (ok input) =
      if some_blank input.namespace input.identity.service input.instance_id
      then (bad_request, none)
      else if not (ensure_writable st)
      then (unavailable, none)
      else propose refuses (
          put_command (key input.namespace input.identity.service input.instance_id)
            (encode (new_value input now)))

  unfoldable pub register_instance : RegisterInput → Outcome
  unfolding register_normalized
  register_instance input = register_normalized (normalize_register_input input)

  unfoldable pub deregister_named : Bytes → Bytes → Result Error ServiceIdentity → Outcome
  unfolding propose ensure_writable
  deregister_named namespace instance_id (err e) = (bad_request, none)
  deregister_named namespace instance_id (ok i) =
      if some_blank namespace i.service instance_id
      then (bad_request, none)
      else if not (ensure_writable st)
      then (unavailable, none)
      else propose refuses (delete_command (key namespace i.service instance_id))

  unfoldable pub deregister : Bytes → ServiceIdentity → Bytes → Outcome
  unfolding deregister_named
  deregister namespace identity instance_id =
      deregister_named (trim namespace) (trim instance_id)
        (normalize_structured_service_identity identity)

  -- the value behind a heartbeat
  unfoldable pub renewed : Value → ℤ → Value
  renewed v ttl = record v {
    lease_ttl_seconds =
        if not (int_leb ttl (pos 0))
        then ttl
        else if int_leb v.lease_ttl_seconds (pos 0)
        then effective_lease_ttl_seconds v.lease_ttl_seconds
        else v.lease_ttl_seconds;
    last_heartbeat_unix = now;
  }

  unfoldable pub renew_decoded : Bytes → ℤ → Option Value → Outcome
  unfolding propose renewed put_command
  renew_decoded k ttl none = (internal_error, none)
  renew_decoded k ttl (some v) = propose refuses (put_command k (encode (renewed v ttl)))

  -- what `Get` answers: an error, or the bytes, of which a missing key has none
  unfoldable pub renew_read : Bytes → ℤ → Option Bytes → Outcome
  unfolding renew_decoded
  renew_read k ttl none = (internal_error, none)
  renew_read k ttl (some []) = (not_found, none)
  renew_read k ttl (some (b ∷ bs)) = renew_decoded k ttl (decode (b ∷ bs))

  unfoldable pub heartbeat_named :
      (Bytes → Option Bytes) → Bytes → Bytes → ℤ → Result Error ServiceIdentity → Outcome
  unfolding renew_read ensure_writable
  heartbeat_named read namespace instance_id ttl (err e) = (bad_request, none)
  heartbeat_named read namespace instance_id ttl (ok i) =
      if some_blank namespace i.service instance_id
      then (bad_request, none)
      else if not (int_leb (pos 0) ttl)
      then (bad_request, none)
      else if not (ensure_writable st)
      then (unavailable, none)
      else renew_read (key namespace i.service instance_id) ttl
          (read (key namespace i.service instance_id))

  unfoldable pub heartbeat : (Bytes → Option Bytes) → Bytes → ServiceIdentity → Bytes → ℤ → Outcome
  unfolding heartbeat_named
  heartbeat read namespace identity instance_id ttl =
      heartbeat_named read (trim namespace) (trim instance_id) ttl
        (normalize_structured_service_identity identity)
