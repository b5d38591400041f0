-- ===== src/Raftnode/Ready.antt =====
-- internal/raftnode/ready.go and confchange.go, and the conversions of node.go. The records of
-- package raftpb have the fields that the code reads; what that package computes is in `Protobuf`.
use stellmap_service.Base.{ℕ, Bool, List, [], ◌∷◌, Option, none, some, ltb, if◌then◌else◌}
use stellmap_service.Text.{Bytes}
use stellmap_service.Raftnode.Waiters.{ReadState}

-- `no_role` is the empty string
pub data Role : Type 0 where
  follower candidate leader learner no_role : Role

-- `raft.StateType`
pub data StateType : Type 0 where
  state_follower state_candidate state_leader state_pre_candidate : StateType

pub record SoftState : Type 0 where
  pub leader_id : ℕ
  pub role : Role

pub record HardState : Type 0 where
  pub term : ℕ
  pub vote : ℕ
  pub commit : ℕ

pub data EntryType : Type 0 where
  entry_normal entry_conf_change entry_conf_change_v2 : EntryType

pub record Entry : Type 0 where
  pub index : ℕ
  pub term : ℕ
  pub entry_type : EntryType
  pub payload : Bytes

pub record LogEntry : Type 0 where
  pub index : ℕ
  pub term : ℕ
  pub entry_type : Bytes
  pub payload : Bytes
  pub raw : Entry

-- `C` is `raftpb.ConfState`, `M` is `raftpb.Message`.
pub record Snapshot (C : Type 0) : Type 0 where
  pub contents : Bytes
  pub index : ℕ
  pub term : ℕ
  pub conf_state : C

pub record Protobuf (C M : Type 0) : Type 0 where
  pub is_empty_hard_state : HardState → Bool
  pub is_empty_snap : Snapshot C → Bool
  pub type_string : EntryType → Bytes
  pub marshal_conf_state : C → Option Bytes
  pub unmarshal_conf_state : Bytes → Option C
  pub empty_conf_state : C
  pub message_to : M → ℕ
  pub message_from : M → ℕ
  pub message_type : M → Bytes
  pub marshal_message : M → Bytes

pub record OutboundMessage (M : Type 0) : Type 0 where
  pub to : ℕ
  pub from : ℕ
  pub message_type : Bytes
  pub payload : Bytes
  pub raw : M

pub record SnapshotMetadata : Type 0 where
  pub term : ℕ
  pub index : ℕ
  pub conf_state : Bytes
  pub checksum : Bytes

-- `raft.Ready`
pub record RaftReady (C M : Type 0) : Type 0 where
  pub soft_state : Option (ℕ × StateType)
  pub hard_state : HardState
  pub read_states : List ReadState
  pub entries : List Entry
  pub snapshot : Snapshot C
  pub committed_entries : List Entry
  pub messages : List M
  pub must_sync : Bool

pub record Ready (M : Type 0) : Type 0 where
  pub soft_state : SoftState
  pub hard_state : HardState
  pub entries : List LogEntry
  pub committed_entries : List LogEntry
  pub messages : List (OutboundMessage M)
  pub snapshot : Option SnapshotMetadata
  pub must_sync : Bool

unfoldable pub to_role : StateType → Role
to_role state_leader = leader
to_role state_candidate = candidate
to_role state_follower = follower
to_role state_pre_candidate = candidate

unfoldable convert_soft_state : Option (ℕ × StateType) → SoftState
unfolding to_role
convert_soft_state none = record { leader_id = 0; role = no_role }
convert_soft_state (some (lead, state)) = record { leader_id = lead; role = to_role state }

module _ {C M : Type 0} (pb : Protobuf C M) where
  unfoldable convert_entries : List Entry → List LogEntry
  convert_entries [] = []
  convert_entries (e ∷ es) =
      record {
        index = e.index;
        term = e.term;
        entry_type = pb.type_string e.entry_type;
        payload = e.payload;
        raw = e;
      }
      ∷ convert_entries es

  unfoldable convert_messages : List M → List (OutboundMessage M)
  convert_messages [] = []
  convert_messages (m ∷ ms) =
      record {
        to = pb.message_to m;
        from = pb.message_from m;
        message_type = pb.message_type m;
        payload = pb.marshal_message m;
        raw = m;
      }
      ∷ convert_messages ms

  unfoldable pub must_marshal_conf_state : C → Bytes
  must_marshal_conf_state c = elim (pb.marshal_conf_state c) [ some bytes ↦ bytes | none ↦ [] ]

  unfoldable pub unmarshal_conf_state : Bytes → C
  unmarshal_conf_state [] = pb.empty_conf_state
  unmarshal_conf_state (b ∷ bs) = elim (pb.unmarshal_conf_state (b ∷ bs)) [
    | some c ↦ c
    | none ↦ pb.empty_conf_state
  ]

  unfoldable convert_snapshot : Snapshot C → Option SnapshotMetadata
  unfolding must_marshal_conf_state
  convert_snapshot snap =
      if pb.is_empty_snap snap
      then none
      else some (record {
        term = snap.term;
        index = snap.index;
        conf_state = must_marshal_conf_state snap.conf_state;
        checksum = [];
      })

  unfoldable pub convert_ready : RaftReady C M → Ready M
  unfolding convert_soft_state convert_entries convert_messages convert_snapshot
  convert_ready rd = record {
    soft_state = convert_soft_state rd.soft_state;
    hard_state = rd.hard_state;
    entries = convert_entries rd.entries;
    committed_entries = convert_entries rd.committed_entries;
    messages = convert_messages rd.messages;
    snapshot = convert_snapshot rd.snapshot;
    must_sync = rd.must_sync;
  }

pub data ConfChangeType : Type 0 where
  add_learner promote_learner remove_node : ConfChangeType
  other_change : Bytes → ConfChangeType

pub record ConfChangeRequest : Type 0 where
  pub change_type : ConfChangeType
  pub node_id : ℕ
  pub context : Bytes

-- `raftpb.ConfChangeType`
pub data ChangeKind : Type 0 where
  add_learner_node add_node remove_raft_node : ChangeKind

-- a `raftpb.ConfChangeV2` with one change
pub record ConfChange : Type 0 where
  pub kind : ChangeKind
  pub node_id : ℕ
  pub context : Bytes

unfoldable change_kind : ConfChangeType → ChangeKind
change_kind add_learner = add_learner_node
change_kind promote_learner = add_node
change_kind remove_node = remove_raft_node
change_kind (other_change _) = remove_raft_node

unfoldable to_conf_change : ConfChangeRequest → ConfChange
unfolding change_kind
to_conf_change change = record {
  kind = change_kind change.change_type;
  node_id = change.node_id;
  context = change.context;
}

-- `slices.Sort` on the ids of a set
unfoldable insert_id : ℕ → List ℕ → List ℕ
insert_id n [] = n ∷ []
insert_id n (m ∷ ms) = if ltb m n then m ∷ insert_id n ms else n ∷ m ∷ ms

unfoldable to_sorted_ids : List ℕ → List ℕ
unfolding insert_id
to_sorted_ids [] = []
to_sorted_ids (n ∷ ns) = insert_id n (to_sorted_ids ns)
