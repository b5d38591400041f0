-- ===== src/Raftnode/Node/Loop.antt =====
-- `handleReady` and `maybeTriggerSnapshot` (internal/raftnode/node.go).
use stellmap_service.Base.{
  ℕ, ◌+◌, ◌-◌, ◌%◌, ◌^◌, Bool, true, false, not, ◌&&◌, ◌||◌, List, [], ◌∷◌, ◌++◌, Option, none,
  some, ltb, leb, ◌==◌, if◌then◌else◌, length, pos, int_leb, Result, ok, err, ◌>>=◌,
}
use stellmap_service.Text.{Bytes}
use stellmap_service.Storage.Pebble.Engine.{StoreError, Database, Json}
use stellmap_service.Storage.Pebble.{PebbleStore, applied_index, snapshot, restore}
use stellmap_service.Raftnode.Waiters.{Stuck, handle_read_states}
use stellmap_service.Raftnode.Ready.{
  HardState, Entry, Snapshot, Protobuf, RaftReady, Ready, convert_ready, must_marshal_conf_state,
}
use stellmap_service.Raftnode.Node.{
  NodeError, store_failure, out_of_date, temporarily_unavailable, compacted, RaftNode, Parts,
  Metadata, keep, apply_committed_entries, update_status, Waiters,
}

-- `a - b` of a `uint64`
unfoldable pub minus_uint64 : ℕ → ℕ → ℕ
minus_uint64 a b = (a + 2 ^ 64 - b) % 2 ^ 64

unfoldable pub compact_index : ℕ → ℕ → ℕ
compact_index applied retain =
    if ltb 0 retain && ltb retain applied then applied - retain else applied

-- the test in front of the export: whether the applied index is far enough behind the last snapshot
unfoldable pub is_due : ℕ → ℕ → ℕ → Bool
unfolding minus_uint64
is_due applied last threshold = not (ltb (minus_uint64 applied last) threshold)

-- an error other than `raft.ErrCompacted`
unfoldable pub unless_compacted : Option NodeError → Option NodeError
unless_compacted none = none
unless_compacted (some compacted) = none
unless_compacted (some e) = some e

module _ {R S W N C M D : Type 0} (parts : Parts R S W N C) (pb : Protobuf C M)
    (pebble : Database D) (json : Json) where
  abbrev pub Node : Type 0
  Node = RaftNode R S W N D M

  unfoldable pub clean_up : Node → Node × Option NodeError
  clean_up n =
      let (store, e) = parts.cleanup n.snap_store n.cfg.keep_snapshots in
      (record n { snap_store = store }, e)

  unfoldable pub after_truncation : Option NodeError → Node → Node × Option NodeError
  unfolding clean_up
  after_truncation none n = clean_up n
  after_truncation (some e) n = (n, some e)

  unfoldable pub after_compaction : ℕ → Option NodeError → Node → Node × Option NodeError
  unfolding after_truncation
  after_compaction index none n =
      let (w, e) = parts.truncate_wal n.wal_store index in
      after_truncation e (record n { wal_store = w })
  after_compaction index (some e) n = (n, some e)

  unfoldable pub compact_from : ℕ → Result NodeError ℕ → Node → Node × Option NodeError
  unfolding after_compaction clean_up unless_compacted
  compact_from index (err e) n = (n, some e)
  compact_from index (ok first) n =
      if leb first index
      then (let (s, e) = parts.compact n.storage index in
          after_compaction index (unless_compacted e) (record n { storage = s }))
      else clean_up n

  unfoldable pub after_creation : ℕ → Option NodeError → Node → Node × Option NodeError
  unfolding compact_from compact_index
  after_creation applied (some e) n = (n, some e)
  after_creation applied none n =
      compact_from (compact_index applied n.cfg.compact_retain_entries)
        (parts.first_index n.storage) n

  -- the snapshot that the memory storage has made is written to a file
  unfoldable pub store_snapshot :
      ℕ → Bytes → Result NodeError (Snapshot C) → Node → Node × Option NodeError
  unfolding after_creation must_marshal_conf_state
  store_snapshot applied bytes (err out_of_date) n = (n, none)
  store_snapshot applied bytes (err e) n = (n, some e)
  store_snapshot applied bytes (ok snap) n =
      let meta : Metadata = record {
        term = snap.term;
        index = snap.index;
        conf_state = must_marshal_conf_state pb snap.conf_state;
        checksum = [];
        file_size = length bytes;
      } in
      let (store, e) = parts.create n.snap_store meta bytes in
      after_creation applied e (record n { snap_store = store })

  unfoldable pub after_export : ℕ → Result StoreError Bytes → Node → Node × Option NodeError
  unfolding store_snapshot
  after_export applied (err e) n = (n, some (store_failure e))
  after_export applied (ok bytes) n =
      let (s, made) =
        parts.create_snapshot n.storage applied (parts.conf_state_of n.raft_node) bytes in
      store_snapshot applied bytes made (record n { storage = s })

  unfoldable pub from_snapshot : ℕ → ℕ → Node → Node × Option NodeError
  unfolding after_export is_due
  from_snapshot applied last n =
      if is_due applied last n.cfg.snapshot_entries
      then after_export applied (snapshot pebble json n.kv_store) n
      else (n, none)

  -- a snapshot that is not available for now counts as one of index zero
  unfoldable pub from_current : ℕ → Result NodeError (Snapshot C) → Node → Node × Option NodeError
  unfolding from_snapshot
  from_current applied (err temporarily_unavailable) n = from_snapshot applied 0 n
  from_current applied (err e) n = (n, some e)
  from_current applied (ok snap) n = from_snapshot applied snap.index n

  unfoldable pub from_applied : Result StoreError ℕ → Node → Node × Option NodeError
  unfolding from_current
  from_applied (err e) n = (n, some (store_failure e))
  from_applied (ok applied) n =
      if applied == 0 then (n, none) else from_current applied (parts.storage_snapshot n.storage) n

  unfoldable pub maybe_trigger_snapshot : Node → Node × Option NodeError
  unfolding from_applied
  maybe_trigger_snapshot n = from_applied (applied_index pebble n.kv_store) n

  unfoldable restore_contents : Bytes → PebbleStore D → PebbleStore D
  unfolding keep
  restore_contents [] s = s
  restore_contents (b ∷ bs) s = keep (restore pebble json s (b ∷ bs)) s

  -- the first block of `handleReady`, for a snapshot that is not empty
  unfoldable install_ready : Snapshot C → Node → Node
  unfolding restore_contents must_marshal_conf_state
  install_ready snap n =
      let meta : Metadata = record {
        term = snap.term;
        index = snap.index;
        conf_state = must_marshal_conf_state pb snap.conf_state;
        checksum = [];
        file_size = 0;
      } in
      record n {
        kv_store = restore_contents snap.contents n.kv_store;
        snap_store = (parts.install n.snap_store meta snap.contents).0;
        storage = (parts.apply_snapshot n.storage snap).0;
      }

  abbrev is_empty : List Entry → Bool
  is_empty [] = true
  is_empty (e ∷ es) = false

  -- the hard state and the entries: to the log first, then to the memory storage
  unfoldable pub persist : HardState → List Entry → Node → Node
  persist hs es n =
      let quiet = pb.is_empty_hard_state hs in
      let w =
        if not quiet || not (is_empty es)
        then (parts.append_wal n.wal_store hs es).0
        else n.wal_store in
      let s = if is_empty es then n.storage else (parts.append_entries n.storage es).0 in
      record n { wal_store = w; storage = if quiet then s else parts.set_hard_state s hs }

  -- `stopping` is whether the `select` takes `<-n.stopCh`; a batch that finds the channel full is
  -- dropped
  unfoldable pub emit_ready : Bool → Ready M → Node → Node
  emit_ready stopping ready n =
      if stopping || int_leb n.cfg.ready_buffer_size (pos (length n.ready_ch))
      then n
      else record n { ready_ch = n.ready_ch ++ ready ∷ [] }

  -- `handleReady` up to the read states
  unfoldable pub prepare : RaftReady C M → Node → Node
  unfolding install_ready persist
  prepare rd n =
      persist rd.hard_state rd.entries
        (if pb.is_empty_snap rd.snapshot then n else install_ready rd.snapshot n)

  -- `handleReady` behind the read states, with the waiters that they leave
  unfoldable pub finish_batch : Bool → RaftReady C M → Waiters → Node → Node
  unfolding apply_committed_entries update_status maybe_trigger_snapshot emit_ready convert_ready
  finish_batch stopping rd ws n =
      let applied =
        apply_committed_entries parts pb pebble json rd.committed_entries
          (record n { waiters = ws }) in
      let seen = record applied { status = update_status parts pb pebble json rd applied.status } in
      let emitted = emit_ready stopping (convert_ready pb rd) (maybe_trigger_snapshot seen).0 in
      record emitted { raft_node = parts.advance emitted.raft_node }

  unfoldable pub handle_ready : Bool → RaftReady C M → Node → Result Stuck Node
  unfolding prepare finish_batch
  handle_ready stopping rd n = do
    ws ← handle_read_states rd.read_states (prepare rd n).waiters
    ok (finish_batch stopping rd ws (prepare rd n))
