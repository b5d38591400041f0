-- ===== src/Raftnode/Node/Recover.antt =====
-- `bootstrapStorage` (internal/raftnode/node.go) and `InstallSnapshot` (internal/raftnode/service.go).
use stellmap_service.Base.{
  ℕ, Bool, true, false, not, ◌&&◌, ◌||◌, List, [], ◌∷◌, Option, none, some, ltb, leb, if◌then◌else◌,
  Result, ok, err, ◌>>=◌,
}
use stellmap_service.Text.{Bytes}
use stellmap_service.Storage.Pebble.Engine.{StoreError, Database, Json}
use stellmap_service.Storage.Pebble.{PebbleStore, restore, set_applied_index, set_applied_term}
use stellmap_service.Raftnode.Ready.{HardState, Entry, Snapshot, Protobuf, unmarshal_conf_state}
use stellmap_service.Raftnode.Node.{
  NodeError, store_failure, out_of_date, RaftNode, Parts, Metadata, Status, mark_both, apply_normal,
  node_closed, node_not_started,
}

-- an error other than `raft.ErrSnapOutOfDate`
unfoldable unless_out_of_date : Option NodeError → Option NodeError
unless_out_of_date none = none
unless_out_of_date (some out_of_date) = none
unless_out_of_date (some e) = some e

-- `if err != nil { return err }`
unfoldable pub check : {A : Type 0} → Option NodeError → A → Result NodeError A
check none a = ok a
check (some e) a = err e

unfoldable of_store : {A : Type 0} → Result StoreError A → Result NodeError A
of_store (ok a) = ok a
of_store (err e) = err (store_failure e)

unfoldable ensure_running : Status → Result NodeError Unit
ensure_running st =
    if not st.started then err node_not_started else if st.stopped then err node_closed else ok tt

module _ {R S W N C M D : Type 0} (parts : Parts R S W N C) (pb : Protobuf C M)
    (pebble : Database D) (json : Json) where
  abbrev Node : Type 0
  Node = RaftNode R S W N D M

  abbrev raft_snapshot : Metadata → Bytes → Snapshot C
  raft_snapshot meta bytes = record {
    contents = bytes;
    index = meta.index;
    term = meta.term;
    conf_state = unmarshal_conf_state pb meta.conf_state;
  }

  -- the snapshot goes to the state machine and to the memory storage
  unfoldable restore_latest : Metadata → Bytes → Node → Result NodeError Node
  unfolding of_store mark_both unless_out_of_date check
  restore_latest meta bytes n = do
    s ← of_store (restore pebble json n.kv_store bytes)
    let (st, e) = parts.apply_snapshot n.storage (raft_snapshot meta bytes)
    check (unless_out_of_date e) (record n {
      kv_store = mark_both parts pb pebble json meta.index meta.term s;
      storage = st;
    })

  -- the node, and the index of the snapshot
  unfoldable restore_found :
      Result NodeError (Option (Metadata × Result NodeError Bytes))
      → Node
      → Result NodeError (Node × ℕ)
  unfolding restore_latest
  restore_found (err e) n = ok (n, 0)
  restore_found (ok none) n = ok (n, 0)
  restore_found (ok (some (meta, err e))) n = err e
  restore_found (ok (some (meta, ok bytes))) n =
      let restored = restore_latest meta bytes n in
      if ltb 0 meta.index then (do n' ← restored; ok (n', meta.index)) else ok (n, 0)

  -- the loop over the entries of the log
  unfoldable pub replay_entries : ℕ → ℕ → List Entry → PebbleStore D → PebbleStore D
  unfolding apply_normal mark_both
  replay_entries low high [] s = s
  replay_entries low high (e ∷ es) s =
      let skipped = replay_entries low high es s in
      let applied = replay_entries low high es (
        mark_both parts pb pebble json e.index e.term
          (apply_normal parts pb pebble json e.entry_type e.payload s)) in
      if leb e.index low || ltb high e.index then skipped else applied

  unfoldable append_loaded : List Entry → S → Result NodeError S
  unfolding check
  append_loaded [] st = ok st
  append_loaded (e ∷ es) st = let (st', f) = parts.append_entries st (e ∷ es) in check f st'

  abbrev has_entries : List Entry → Bool
  has_entries [] = false
  has_entries (e ∷ es) = true

  unfoldable load_log : ℕ → HardState → List Entry → Node → Result NodeError Node
  unfolding append_loaded replay_entries
  load_log low hs es n =
      let quiet = pb.is_empty_hard_state hs in
      let st = if quiet then n.storage else parts.set_hard_state n.storage hs in
      do
        st' ← append_loaded es st
        ok (record n {
          storage = st';
          fresh_node = n.fresh_node && not (not quiet || has_entries es || ltb 0 low);
          kv_store =
              if not quiet && ltb low hs.commit
              then replay_entries low hs.commit es n.kv_store
              else n.kv_store;
          status = record n.status { applied_index = hs.commit; commit_index = hs.commit };
        })

  unfoldable bootstrap_storage : Node → Result NodeError Node
  unfolding restore_found load_log
  bootstrap_storage n = do
    found ← restore_found (parts.open_latest n.snap_store) n
    loaded ← parts.load_wal found.0.wal_store
    load_log found.1 loaded.0 loaded.1 found.0

  unfoldable raised : ℕ → Status → Status
  raised index st = record st {
    applied_index = if ltb st.applied_index index then index else st.applied_index;
    commit_index = if ltb st.commit_index index then index else st.commit_index;
  }

  unfoldable restore_sent : Bytes → PebbleStore D → Result NodeError (PebbleStore D)
  unfolding of_store
  restore_sent [] s = ok s
  restore_sent (b ∷ bs) s = of_store (restore pebble json s (b ∷ bs))

  unfoldable install_snapshot : Metadata → Bytes → Node → Result NodeError Node
  unfolding ensure_running restore_sent of_store check unless_out_of_date raised
  install_snapshot meta bytes n = do
    _ ← ensure_running n.status
    let (files, e) = parts.install n.snap_store meta bytes
    files' ← check e files
    s ← restore_sent bytes n.kv_store
    let (st, f) = parts.apply_snapshot n.storage (raft_snapshot meta bytes)
    st' ← check (unless_out_of_date f) st
    s1 ← of_store (set_applied_index pebble s meta.index)
    s2 ← of_store (set_applied_term pebble s1 meta.term)
    let (w, g) = parts.truncate_wal n.wal_store meta.index
    w' ← check g w
    ok (record n {
      snap_store = files';
      kv_store = s2;
      storage = st';
      wal_store = w';
      status = raised meta.index n.status;
    })
