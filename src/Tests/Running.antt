-- ===== src/Tests/Running.antt =====
-- A node whose parts do nothing, over a database in memory: a batch, and a crash in the middle of one.
use stellmap_service.Base.{
  ℕ, ◌+◌, ◌≤◌, ◌<◌, ◌≡◌, refl, true, false, not, ◌&&◌, [], ◌∷◌, Option, none, some, arith, ◌==◌,
  if◌then◌else◌, pos, ok, err,
}
use stellmap_service.Text.{Bytes, eqb}
use stellmap_service.Storage.{Command, put}
use stellmap_service.Storage.Pebble.{
  PebbleStore, is_meta_key, meta_applied_index_key, applied_index, snapshot, get_number,
  found_number, require_db, opened,
}
use stellmap_service.Storage.Uint64.{put_big_endian, big_endian, encode_uint64, decode_uint64}
use stellmap_service.Storage.Pebble.Prefix.{IsClean}
use stellmap_service.GoMap.{lookup, IsMap}
use stellmap_service.Raftnode.Config.{Config}
use stellmap_service.Raftnode.Waiters.{no_waiters}
use stellmap_service.Raftnode.Waiters.Answers
use stellmap_service.Raftnode.Waiters.Answers.{no_waiters-IsValid}
use stellmap_service.Raftnode.Ready.{Entry, entry_normal, Snapshot, Protobuf, RaftReady, follower}
use stellmap_service.Raftnode.Node.{Parts, RaftNode, other_failure, apply_entries, last_index}
use stellmap_service.Raftnode.Node.Loop.{
  handle_ready, compact_index, maybe_trigger_snapshot, after_export,
}
use stellmap_service.Raftnode.Node.Apply.{NeverFails, meanings, commands_of}
use stellmap_service.Raftnode.Node.Recover.{replay_entries}
use stellmap_service.Raftnode.Node.Replay.{replay_after_crash, held_by}
use stellmap_service.Raftnode.Node.Batch.{handle_ready_lem, node_content}
use stellmap_service.Raftnode.Node.Compaction.{
  compact_index_bounds, is_far, maybe_trigger_snapshot_lem,
}
use stellmap_service.Tests.Database.{
  Entries, content_of, map_database, map_database-IsDatabase, write_entries,
}
use stellmap_service.Tests.Encoding.{plain_json}

-- a payload is a key of one byte and a value
abbrev decode_put : Bytes → Option Command
decode_put [] = none
decode_put (b ∷ bs) = some (record { operation = put; key = b ∷ []; value = bs; prefix = [] })

abbrev idle : Parts Unit Unit Unit Unit Unit
idle = record {
  decode_command = decode_put;
  decode_conf_change = λ bs. none;
  decode_conf_change_v2 = λ bs. none;
  apply_conf_change = λ r change. r;
  conf_state_of = λ r. tt;
  advance = λ r. r;
  apply_snapshot = λ s snap. (s, none);
  append_entries = λ s es. (s, none);
  set_hard_state = λ s hs. s;
  storage_snapshot = λ s. err other_failure;
  create_snapshot = λ s index c bytes. (s, err other_failure);
  first_index = λ s. ok 1;
  compact = λ s index. (s, none);
  append_wal = λ w hs es. (w, some other_failure);
  load_wal = λ w. err other_failure;
  truncate_wal = λ w index. (w, none);
  open_latest = λ n. ok none;
  install = λ n meta bytes. (n, none);
  create = λ n meta bytes. (n, none);
  cleanup = λ n keep. (n, none);
}

abbrev unit_protobuf : Protobuf Unit Unit
unit_protobuf = record {
  is_empty_hard_state = λ hs. hs.commit == 0;
  is_empty_snap = λ (snap : Snapshot Unit). snap.index == 0;
  type_string = λ t. [];
  marshal_conf_state = λ c. none;
  unmarshal_conf_state = λ bs. none;
  empty_conf_state = tt;
  message_to = λ m. 0;
  message_from = λ m. 0;
  message_type = λ m. [];
  marshal_message = λ m. [];
}

never_fails : NeverFails map_database
never_fails d ws = (write_entries ws d, refl)

abbrev key_a : Bytes
key_a = 97 ∷ []

abbrev put_a : ℕ → ℕ → Entry
put_a index value = record {
  index = index;
  term = 1;
  entry_type = entry_normal;
  payload = 97 ∷ value ∷ [];
}

abbrev empty_store : PebbleStore Entries
empty_store = record { db = some ([], tt) }

key_a-IsClean : IsClean key_a
key_a-IsClean = (ground arith, tt)

key_a_plain : is_meta_key key_a ≡ false
unfolding is_meta_key eqb
key_a_plain = refl

-- The first of two writes had been applied when the node stopped.
replay_after_crash_example :
    held_by idle unit_protobuf map_database plain_json content_of map_database-IsDatabase
      never_fails
      (replay_entries idle unit_protobuf map_database plain_json 0 2
        (put_a 1 5 ∷ put_a 2 6 ∷ [])
        (apply_entries idle unit_protobuf map_database plain_json
          (put_a 1 5 ∷ [])
          (tt, empty_store)).1)
      key_a
    ≡ held_by idle unit_protobuf map_database plain_json content_of map_database-IsDatabase
        never_fails
        (apply_entries idle unit_protobuf map_database plain_json
          (put_a 1 5 ∷ put_a 2 6 ∷ [])
          (tt, empty_store)).1
        key_a
replay_after_crash_example =
    replay_after_crash idle unit_protobuf map_database plain_json content_of map_database-IsDatabase
      never_fails 0 2 (put_a 1 5 ∷ []) (put_a 2 6 ∷ []) tt empty_store key_a key_a-IsClean
      key_a_plain (([], tt), refl) ((omega arith, omega arith), ((omega arith, omega arith), tt))

abbrev options : Config
options = record {
  node_id = 1;
  cluster_id = 1;
  data_dir = [];
  peers = [];
  tick_interval = pos 0;
  election_tick = pos 0;
  heartbeat_tick = pos 0;
  ready_buffer_size = pos 0;
  linearizable_read_timeout = pos 0;
  max_size_per_msg = 0;
  max_inflight_msgs = pos 0;
  snapshot_entries = 0;
  compact_retain_entries = 0;
  keep_snapshots = pos 0;
  initial_applied_index = 0;
  initial_leader_id = 0;
}

abbrev small_node : RaftNode Unit Unit Unit Unit Entries Unit
small_node = record {
  cfg = options;
  status = record {
    node_id = 1;
    cluster_id = 1;
    leader_id = 0;
    role = follower;
    applied_index = 0;
    commit_index = 0;
    started = true;
    stopped = false;
  };
  raft_node = tt;
  storage = tt;
  wal_store = tt;
  snap_store = tt;
  kv_store = empty_store;
  waiters = no_waiters;
  fresh_node = true;
  ready_ch = [];
}

abbrev batch : RaftReady Unit Unit
batch = record {
  soft_state = none;
  hard_state = record { term = 1; vote = 1; commit = 2 };
  read_states = [];
  entries = [];
  snapshot = record { contents = []; index = 0; term = 0; conf_state = tt };
  committed_entries = put_a 1 5 ∷ put_a 2 6 ∷ [];
  messages = [];
  must_sync = false;
}

handle_ready_lem_example :
    (n' : RaftNode Unit Unit Unit Unit Entries Unit) × (handle_ready idle unit_protobuf map_database
        plain_json false batch small_node
      ≡ ok n')
    × Answers.IsValid n'.waiters
    × (node_content idle unit_protobuf map_database plain_json content_of map_database-IsDatabase
          never_fails n' key_a
        ≡ meanings
            (commands_of decode_put (put_a 1 5 ∷ put_a 2 6 ∷ []))
            (node_content idle unit_protobuf map_database plain_json content_of
              map_database-IsDatabase never_fails small_node)
            key_a)
    × (n'.status.applied_index ≡ last_index 0 (put_a 1 5 ∷ put_a 2 6 ∷ []))
handle_ready_lem_example =
    handle_ready_lem idle unit_protobuf map_database plain_json content_of map_database-IsDatabase
      never_fails false batch small_node key_a refl no_waiters-IsValid key_a-IsClean key_a_plain
      (([], tt), refl)

compact_index_bounds_example :
    (compact_index 20 16 ≤ 20)
    × (20 ≤ compact_index 20 16 + 16)
    × (0 < 16 → 16 < 20 → compact_index 20 16 + 16 ≡ 20)
    × (0 < 20 → 0 < compact_index 20 16)
compact_index_bounds_example = compact_index_bounds 20 16

-- the storage has a snapshot of index nine, the store has applied five
abbrev ahead : Parts Unit Unit Unit Unit Unit
ahead = record idle {
  storage_snapshot = λ s. ok (record { contents = []; index = 9; term = 1; conf_state = tt });
}

at_5-IsMap : IsMap ((meta_applied_index_key, encode_uint64 5) ∷ [])
unfolding lookup
at_5-IsMap = (refl, tt)

abbrev store_at_5 : PebbleStore Entries
store_at_5 = record { db = some ((meta_applied_index_key, encode_uint64 5) ∷ [], at_5-IsMap) }

abbrev late_node : RaftNode Unit Unit Unit Unit Entries Unit
late_node = record small_node {
  kv_store = store_at_5;
  cfg = record options { snapshot_entries = 64 };
}

applied_5 : applied_index map_database late_node.kv_store ≡ ok 5
unfolding applied_index get_number found_number require_db opened encode_uint64 decode_uint64
    put_big_endian big_endian lookup eqb
applied_5 = refl

maybe_trigger_snapshot_lem_example :
    maybe_trigger_snapshot ahead unit_protobuf map_database plain_json late_node ≡ (
      if not (5 == 0) && is_far 5 9 64
      then after_export ahead unit_protobuf map_database plain_json 5
          (snapshot map_database plain_json store_at_5)
          late_node
      else (late_node, none))
maybe_trigger_snapshot_lem_example =
    maybe_trigger_snapshot_lem ahead unit_protobuf map_database plain_json late_node applied_5 refl
      (omega arith) (omega arith)
