-- ===== src/Raftnode/Config.antt =====
-- internal/raftnode/config.go: the options of a node, their defaults and their check. Durations are
-- in nanoseconds.
use stellmap_service.Base.{
  ℕ, suc, ◌≡◌, inl, inr, refl, Bool, false, List, [], ◌∷◌, arith, ◌==◌, if◌then◌else◌, Bool-cases,
  ℤ, pos, int_leb, Result, ok, err,
}
use stellmap_service.Text.{Bytes}

pub record Config : Type 0 where
  pub node_id : ℕ
  pub cluster_id : ℕ
  pub data_dir : Bytes
  pub peers : List ℕ
  pub tick_interval : ℤ
  pub election_tick : ℤ
  pub heartbeat_tick : ℤ
  pub ready_buffer_size : ℤ
  pub linearizable_read_timeout : ℤ
  pub max_size_per_msg : ℕ
  pub max_inflight_msgs : ℤ
  pub snapshot_entries : ℕ
  pub compact_retain_entries : ℕ
  pub keep_snapshots : ℤ
  pub initial_applied_index : ℕ
  pub initial_leader_id : ℕ

pub data ConfigError : Type 0 where
  node_id_required election_tick_too_small tick_interval_required : ConfigError
  ready_buffer_size_required read_timeout_required max_size_required : ConfigError
  max_inflight_required snapshot_entries_required keep_snapshots_required : ConfigError

-- one test of `Validate`, in front of the others
abbrev require : Bool → ConfigError → Result ConfigError Unit → Result ConfigError Unit
require b e rest = if b then err e else rest

unfoldable validate : Config → Result ConfigError Unit
validate c = require (c.node_id == 0) node_id_required (
    require (int_leb c.election_tick c.heartbeat_tick) election_tick_too_small (
      require (int_leb c.tick_interval (pos 0)) tick_interval_required (
        require (int_leb c.ready_buffer_size (pos 0)) ready_buffer_size_required (
          require (int_leb c.linearizable_read_timeout (pos 0)) read_timeout_required (
            require (c.max_size_per_msg == 0) max_size_required (
              require (int_leb c.max_inflight_msgs (pos 0)) max_inflight_required (
                require (c.snapshot_entries == 0) snapshot_entries_required (
                  require (int_leb c.keep_snapshots (pos 0)) keep_snapshots_required (ok tt)))))))))

-- `if value <= 0 { value = fallback }`
unfoldable int_or : ℤ → ℤ → ℤ
int_or value fallback = if int_leb value (pos 0) then fallback else value

-- `if value == 0 { value = fallback }`
unfoldable nat_or : ℕ → ℕ → ℕ
nat_or value fallback = if value == 0 then fallback else value

unfoldable peers_or_self : List ℕ → ℕ → List ℕ
peers_or_self [] node_id = if node_id == 0 then [] else node_id ∷ []
peers_or_self (p ∷ ps) node_id = p ∷ ps

unfoldable with_defaults : Config → Config
unfolding int_or nat_or peers_or_self
with_defaults c = record c {
  tick_interval = int_or c.tick_interval (pos 100000000);
  election_tick = int_or c.election_tick (pos 10);
  heartbeat_tick = int_or c.heartbeat_tick (pos 1);
  ready_buffer_size = int_or c.ready_buffer_size (pos 16);
  linearizable_read_timeout = int_or c.linearizable_read_timeout (pos 3000000000);
  max_size_per_msg = nat_or c.max_size_per_msg 1048576;
  max_inflight_msgs = int_or c.max_inflight_msgs (pos 256);
  snapshot_entries = nat_or c.snapshot_entries 64;
  compact_retain_entries = nat_or c.compact_retain_entries 16;
  keep_snapshots = int_or c.keep_snapshots (pos 2);
  peers = peers_or_self c.peers c.node_id;
}

-- `n` is at least `m`, of positive numbers
int_or-positive : (value : ℤ) (n : ℕ) → int_leb (int_or value (pos (suc n))) (pos 0) ≡ false
unfolding int_or
int_or-positive value n = elim (Bool-cases (int_leb value (pos 0))) [
  | inl e ↦ rw e (ground arith)
  | inr e ↦ rw e e
]

nat_or-positive : (value n : ℕ) → (nat_or value (suc n) == 0) ≡ false
unfolding nat_or
nat_or-positive value n = ground arith

-- Behind the defaults only two things are left to check: a configuration is accepted exactly if it
-- names its node and the ticks of an election are more than those of a heartbeat, where ten and one
-- stand for ticks that are not positive.
validate-with_defaults :
    (c : Config)
    → validate (with_defaults c) ≡ (
        if c.node_id == 0
        then err node_id_required
        else if int_leb (int_or c.election_tick (pos 10)) (int_or c.heartbeat_tick (pos 1))
        then err election_tick_too_small
        else ok tt)
unfolding validate with_defaults
validate-with_defaults c =
    rw
      (
        int_or-positive c.tick_interval 99999999,
        int_or-positive c.ready_buffer_size 15,
        int_or-positive c.linearizable_read_timeout 2999999999,
        nat_or-positive c.max_size_per_msg 1048575,
        int_or-positive c.max_inflight_msgs 255,
        nat_or-positive c.snapshot_entries 63,
        int_or-positive c.keep_snapshots 1,
      )
      refl
