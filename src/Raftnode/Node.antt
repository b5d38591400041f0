-- ===== src/Raftnode/Node.antt =====
-- `RaftNode` (internal/raftnode/node.go). etcd's Raft with its memory storage, the file log and the
-- snapshot files are interfaces; the state machine is the Pebble store.
pub mod Apply
pub mod Loop
pub mod Recover
pub mod Replay
pub mod Batch
pub mod Compaction
use stellmap_service.Base.{
  ℕ, zero, suc, ◌+◌, ◌-◌, ◌*◌, ◌/◌, ◌%◌, ◌^◌, ◌≤◌, ◌<◌, ◌≡◌, ◌≢◌, ◌↔◌, ◌⊎◌, inl, inr, refl, sym, ap,
  ap₂, ◌∙◌, subst, fun_ext, Bool, true, false, not, ◌&&◌, ◌||◌, List, [], ◌∷◌, ◌++◌, map, reverse,
  append-nil, append_assoc, reverse-append, reverse-reverse, Option, none, some, arith, ltb, leb,
  ◌==◌, if◌then◌else◌, ==_refl, ==→eq, Bool-cases, Option-cases, &&-true, length, take, drop,
  get_last?, select, any, All, length-append, length-drop, take-append-drop, select-append,
  length-select, All-append, ℤ, pos, negsuc, pos_part, neg_part, sub_ℕ, ◌+ℤ◌, ◌≤ℤ◌, int_leb,
  IsInt64, wrap_int64, wrap_int64_of_IsInt64, wrap_int64-IsInt64, Result, ok, err, ◌>>=◌,
  bind-eq-ok,
}
use stellmap_service.Text.{Bytes, codes, eqb}
use stellmap_service.Storage.{Command}
use stellmap_service.Storage.Pebble.Engine.{StoreError, Database, Json}
use stellmap_service.Storage.Pebble.{
  PebbleStore, apply_command, set_applied_index, set_applied_term, applied_index, snapshot, restore,
}
use stellmap_service.Raftnode.Config.{Config}
use stellmap_service.Raftnode.Waiters.{Waiters, Stuck, handle_read_states}
use stellmap_service.Raftnode.Ready.{
  Role, StateType, HardState, Entry, EntryType, entry_normal, entry_conf_change,
  entry_conf_change_v2, Snapshot, Protobuf, RaftReady, Ready, to_role, convert_ready,
  must_marshal_conf_state, unmarshal_conf_state,
}

pub data NodeError : Type 0 where
  node_closed node_not_started node_started : NodeError
  target_required change_type_required change_node_required : NodeError
  out_of_date temporarily_unavailable compacted other_failure : NodeError
  store_failure : StoreError → NodeError

pub record Status : Type 0 where
  pub node_id : ℕ
  pub cluster_id : ℕ
  pub leader_id : ℕ
  pub role : Role
  pub applied_index : ℕ
  pub commit_index : ℕ
  pub started : Bool
  pub stopped : Bool

-- `snapshot.Metadata`
pub record Metadata : Type 0 where
  pub term : ℕ
  pub index : ℕ
  pub conf_state : Bytes
  pub checksum : Bytes
  pub file_size : ℕ

-- The operations of the parts: `R` is `raft.Node`, `S` is `raft.MemoryStorage`, `W` is `wal.WAL`, `N`
-- is `snapshot.Store`, and `C` is `raftpb.ConfState`. An operation that can fail gives the part
-- behind it in any case. All of them return: the panics of `raft.MemoryStorage` on entries that leave
-- a gap, or on an index behind the last entry, are left out.
pub record Parts (R S W N C : Type 0) : Type 0 where
  pub decode_command : Bytes → Option Command
  pub decode_conf_change : Bytes → Option Bytes
  pub decode_conf_change_v2 : Bytes → Option Bytes
  pub apply_conf_change : R → Bytes → R
  pub conf_state_of : R → C
  pub advance : R → R
  pub apply_snapshot : S → Snapshot C → S × Option NodeError
  pub append_entries : S → List Entry → S × Option NodeError
  pub set_hard_state : S → HardState → S
  pub storage_snapshot : S → Result NodeError (Snapshot C)
  pub create_snapshot : S → ℕ → C → Bytes → S × Result NodeError (Snapshot C)
  pub first_index : S → Result NodeError ℕ
  pub compact : S → ℕ → S × Option NodeError
  pub append_wal : W → HardState → List Entry → W × Option NodeError
  pub load_wal : W → Result NodeError (HardState × List Entry)
  pub truncate_wal : W → ℕ → W × Option NodeError
  pub open_latest : N → Result NodeError (Option (Metadata × Result NodeError Bytes))
  pub install : N → Metadata → Bytes → N × Option NodeError
  pub create : N → Metadata → Bytes → N × Option NodeError
  pub cleanup : N → ℤ → N × Option NodeError

-- `n.raftNode` is there once the node runs.
pub record RaftNode (R S W N D M : Type 0) : Type 0 where
  pub cfg : Config
  pub status : Status
  pub raft_node : R
  pub storage : S
  pub wal_store : W
  pub snap_store : N
  pub kv_store : PebbleStore D
  pub waiters : Waiters
  pub fresh_node : Bool
  pub ready_ch : List (Ready M)

-- `_ = f()` where a store that fails stays as it is
unfoldable pub keep : {E A : Type 0} → Result E A → A → A
keep (ok a) old = a
keep (err e) old = old

-- `_, _ = n.kvStore.Apply(ctx, cmd)`
unfoldable pub keep_applied :
    {E D : Type 0} → Result E (PebbleStore D × ℕ) → PebbleStore D → PebbleStore D
keep_applied (ok (s, n)) old = s
keep_applied (err e) old = old

-- the index of the last entry, or the value before
unfoldable pub last_index : ℕ → List Entry → ℕ
last_index i [] = i
last_index i (e ∷ es) = last_index e.index es

unfoldable pub last_term : ℕ → List Entry → ℕ
last_term t [] = t
last_term t (e ∷ es) = last_term e.term es

module _ {R S W N C M D : Type 0} (parts : Parts R S W N C) (pb : Protobuf C M)
    (pebble : Database D) (json : Json) where
  -- a command that does not parse is skipped
  unfoldable pub apply_decoded : Option Command → PebbleStore D → PebbleStore D
  unfolding keep_applied
  apply_decoded none s = s
  apply_decoded (some cmd) s = keep_applied (apply_command pebble s cmd) s

  -- `entry.Type == raftpb.EntryNormal && len(entry.Data) > 0`
  unfoldable pub apply_normal : EntryType → Bytes → PebbleStore D → PebbleStore D
  unfolding apply_decoded
  apply_normal entry_normal [] s = s
  apply_normal entry_normal (b ∷ bs) s = apply_decoded (parts.decode_command (b ∷ bs)) s
  apply_normal entry_conf_change payload s = s
  apply_normal entry_conf_change_v2 payload s = s

  unfoldable change_conf : Option Bytes → R → R
  change_conf none r = r
  change_conf (some change) r = parts.apply_conf_change r change

  unfoldable apply_conf : EntryType → Bytes → R → R
  unfolding change_conf
  apply_conf entry_normal payload r = r
  apply_conf entry_conf_change payload r = change_conf (parts.decode_conf_change payload) r
  apply_conf entry_conf_change_v2 payload r = change_conf (parts.decode_conf_change_v2 payload) r

  -- the loop of `applyCommittedEntries`
  unfoldable pub apply_entries : List Entry → R × PebbleStore D → R × PebbleStore D
  unfolding apply_normal apply_conf
  apply_entries [] (r, s) = (r, s)
  apply_entries (e ∷ es) (r, s) =
      apply_entries es (apply_conf e.entry_type e.payload r, apply_normal e.entry_type e.payload s)

  -- `SetAppliedIndex` and `SetAppliedTerm`, with their errors ignored
  unfoldable pub mark_both : ℕ → ℕ → PebbleStore D → PebbleStore D
  unfolding keep
  mark_both index term s =
      let s' = keep (set_applied_index pebble s index) s in
      keep (set_applied_term pebble s' term) s'

  unfoldable pub mark_applied : ℕ → ℕ → PebbleStore D → PebbleStore D
  unfolding mark_both
  mark_applied index term s = if ltb 0 index then mark_both index term s else s

  unfoldable pub apply_committed_entries : List Entry → RaftNode R S W N D M → RaftNode R S W N D M
  unfolding apply_entries mark_applied last_index last_term
  apply_committed_entries [] n = n
  apply_committed_entries (e ∷ es) n =
      let (r, s) = apply_entries (e ∷ es) (n.raft_node, n.kv_store) in
      let index = last_index 0 (e ∷ es) in
      record n {
        raft_node = r;
        kv_store = mark_applied index (last_term 0 (e ∷ es)) s;
        status = record n.status { applied_index = index };
      }

  unfoldable pub seen_soft_state : Option (ℕ × StateType) → Status → Status
  unfolding to_role
  seen_soft_state none st = st
  seen_soft_state (some (lead, state)) st = record st { leader_id = lead; role = to_role state }

  unfoldable pub seen_hard_state : HardState → Status → Status
  seen_hard_state hs st =
      if pb.is_empty_hard_state hs then st else record st { commit_index = hs.commit }

  unfoldable pub seen_committed : List Entry → Status → Status
  unfolding last_index
  seen_committed [] st = st
  seen_committed (e ∷ es) st = record st { applied_index = last_index 0 (e ∷ es) }

  unfoldable pub update_status : RaftReady C M → Status → Status
  unfolding seen_soft_state seen_hard_state seen_committed
  update_status rd st =
      seen_committed rd.committed_entries
        (seen_hard_state rd.hard_state (seen_soft_state rd.soft_state st))
