-- ===== src/Raftnode/Node/Compaction.antt =====
-- Where a snapshot cuts the log, when it is due, and what it leaves alone.
use stellmap_service.Base.{
  ℕ, ◌+◌, ◌-◌, ◌%◌, ◌^◌, ◌≤◌, ◌<◌, ◌≡◌, inl, inr, refl, Bool, not, ◌&&◌, Option, none, some, arith,
  ltb, leb, ◌==◌, if◌then◌else◌, Bool-cases, Result, ok, err,
}
use stellmap_service.Text.{Bytes}
use stellmap_service.Storage.Pebble.Engine.{StoreError, Database, Json}
use stellmap_service.Storage.Pebble.{applied_index, snapshot}
use stellmap_service.Raftnode.Ready.{Snapshot, Protobuf}
use stellmap_service.Raftnode.Node.{
  NodeError, RaftNode, Parts, out_of_date, temporarily_unavailable, compacted, store_failure,
  other_failure, node_closed, node_not_started, node_started, target_required, change_type_required,
  change_node_required,
}
use stellmap_service.Raftnode.Node.Loop.{
  minus_uint64, compact_index, is_due, clean_up, after_truncation, after_compaction, compact_from,
  after_creation, store_snapshot, after_export, from_snapshot, from_current, from_applied,
  maybe_trigger_snapshot, unless_compacted,
}

-- The log is cut at most at the applied index, and at most as many entries as are to be retained
-- stay before it; exactly so many where that many were applied before.
pub compact_index_bounds :
    (applied retain : ℕ)
    → (compact_index applied retain ≤ applied)
      × (applied ≤ compact_index applied retain + retain)
      × (0 < retain → retain < applied → compact_index applied retain + retain ≡ applied)
      × (0 < applied → 0 < compact_index applied retain)
unfolding compact_index
compact_index_bounds applied retain = elim (Bool-cases (ltb 0 retain && ltb retain applied)) [
  | inl e ↦ rw e (ground arith, ground arith, λ h q. ground arith, λ h. ground arith)
  | inr e ↦ rw e (omega arith, omega arith, λ h q. absurd (ground arith), λ h. h)
]

-- Whether the applied index is at the distance of the threshold from the last snapshot, or behind it
-- and the difference, which has wrapped, at the threshold.
abbrev pub is_far : ℕ → ℕ → ℕ → Bool
is_far applied last threshold =
    if leb last applied
    then leb (last + threshold) applied
    else leb (threshold + last) (2 ^ 64 + applied)

is_due_lem :
    (applied last threshold : ℕ)
    → applied < 2 ^ 64
    → last < 2 ^ 64
    → is_due applied last threshold ≡ is_far applied last threshold
unfolding is_due minus_uint64
is_due_lem applied last threshold ha hl = elim (Bool-cases (leb last applied)) [
  | inl above ↦
      let difference : (applied + 2 ^ 64 - last) % 2 ^ 64 ≡ applied - last = ground arith in
      rw (difference, above) (ground arith)
  | inr below ↦
      let difference : (applied + 2 ^ 64 - last) % 2 ^ 64 ≡ 2 ^ 64 - (last - applied) =
        ground arith in
      rw (difference, below) (ground arith)
]

module _ {R S W N C M D : Type 0} (parts : Parts R S W N C) (pb : Protobuf C M)
    (pebble : Database D) (json : Json) where
  abbrev Node : Type 0
  Node = RaftNode R S W N D M

  -- The state machine, the status and the waiters are as before.
  abbrev pub Keeps : Node → Node → Type 0
  Keeps n m = (m.kv_store ≡ n.kv_store) × (m.status ≡ n.status) × (m.waiters ≡ n.waiters)

  clean_up-Keeps : (n : Node) → Keeps n (clean_up parts pb pebble json n).0
  unfolding clean_up
  clean_up-Keeps n = (refl, refl, refl)

  after_truncation-Keeps :
      (o : Option NodeError) (n : Node) → Keeps n (after_truncation parts pb pebble json o n).0
  unfolding after_truncation
  after_truncation-Keeps none n = clean_up-Keeps n
  after_truncation-Keeps (some e) n = (refl, refl, refl)

  after_compaction-Keeps :
      (index : ℕ) (o : Option NodeError) (n : Node)
      → Keeps n (after_compaction parts pb pebble json index o n).0
  unfolding after_compaction
  after_compaction-Keeps index none n =
      let (w, e) = parts.truncate_wal n.wal_store index in
      after_truncation-Keeps e (record n { wal_store = w })
  after_compaction-Keeps index (some e) n = (refl, refl, refl)

  compact_from-Keeps :
      (index : ℕ) (first : Result NodeError ℕ) (n : Node)
      → Keeps n (compact_from parts pb pebble json index first n).0
  unfolding compact_from
  compact_from-Keeps index (err e) n = (refl, refl, refl)
  compact_from-Keeps index (ok first) n = elim (Bool-cases (leb first index)) [
    | inl e ↦
        let (s, f) = parts.compact n.storage index in
        rw e (after_compaction-Keeps index (unless_compacted f) (record n { storage = s }))
    | inr e ↦ rw e (clean_up-Keeps n)
  ]

  after_creation-Keeps :
      (applied : ℕ) (o : Option NodeError) (n : Node)
      → Keeps n (after_creation parts pb pebble json applied o n).0
  unfolding after_creation
  after_creation-Keeps applied (some e) n = (refl, refl, refl)
  after_creation-Keeps applied none n = compact_from-Keeps _ (parts.first_index n.storage) n

  store_snapshot-Keeps :
      (applied : ℕ) (bytes : Bytes) (made : Result NodeError (Snapshot C)) (n : Node)
      → Keeps n (store_snapshot parts pb pebble json applied bytes made n).0
  unfolding store_snapshot
  store_snapshot-Keeps applied bytes (err e) n = error_keeps e
    where
      error_keeps :
          (e : NodeError) → Keeps n (store_snapshot parts pb pebble json applied bytes (err e) n).0
      error_keeps node_closed = (refl, refl, refl)
      error_keeps node_not_started = (refl, refl, refl)
      error_keeps node_started = (refl, refl, refl)
      error_keeps target_required = (refl, refl, refl)
      error_keeps change_type_required = (refl, refl, refl)
      error_keeps change_node_required = (refl, refl, refl)
      error_keeps out_of_date = (refl, refl, refl)
      error_keeps temporarily_unavailable = (refl, refl, refl)
      error_keeps compacted = (refl, refl, refl)
      error_keeps other_failure = (refl, refl, refl)
      error_keeps (store_failure e) = (refl, refl, refl)
  store_snapshot-Keeps applied bytes (ok snap) n =
      after_creation-Keeps applied _ (record n { snap_store = _ })

  after_export-Keeps :
      (applied : ℕ) (o : Result StoreError Bytes) (n : Node)
      → Keeps n (after_export parts pb pebble json applied o n).0
  unfolding after_export
  after_export-Keeps applied (err e) n = (refl, refl, refl)
  after_export-Keeps applied (ok bytes) n =
      store_snapshot-Keeps applied bytes _ (record n { storage = _ })

  from_snapshot-Keeps :
      (applied last : ℕ) (n : Node) → Keeps n (from_snapshot parts pb pebble json applied last n).0
  unfolding from_snapshot
  from_snapshot-Keeps applied last n =
      elim (Bool-cases (is_due applied last n.cfg.snapshot_entries)) [
        | inl e ↦ rw e (after_export-Keeps applied (snapshot pebble json n.kv_store) n)
        | inr e ↦ rw e (refl, refl, refl)
      ]

  from_current-Keeps :
      (applied : ℕ) (o : Result NodeError (Snapshot C)) (n : Node)
      → Keeps n (from_current parts pb pebble json applied o n).0
  unfolding from_current
  from_current-Keeps applied (ok snap) n = from_snapshot-Keeps applied snap.index n
  from_current-Keeps applied (err e) n = error_keeps e
    where
      error_keeps :
          (e : NodeError) → Keeps n (from_current parts pb pebble json applied (err e) n).0
      error_keeps node_closed = (refl, refl, refl)
      error_keeps node_not_started = (refl, refl, refl)
      error_keeps node_started = (refl, refl, refl)
      error_keeps target_required = (refl, refl, refl)
      error_keeps change_type_required = (refl, refl, refl)
      error_keeps change_node_required = (refl, refl, refl)
      error_keeps out_of_date = (refl, refl, refl)
      error_keeps temporarily_unavailable = from_snapshot-Keeps applied 0 n
      error_keeps compacted = (refl, refl, refl)
      error_keeps other_failure = (refl, refl, refl)
      error_keeps (store_failure e) = (refl, refl, refl)

  from_applied-Keeps :
      (o : Result StoreError ℕ) (n : Node) → Keeps n (from_applied parts pb pebble json o n).0
  unfolding from_applied
  from_applied-Keeps (err e) n = (refl, refl, refl)
  from_applied-Keeps (ok applied) n = elim (Bool-cases (applied == 0)) [
    | inl e ↦ rw e (refl, refl, refl)
    | inr e ↦ rw e (from_current-Keeps applied (parts.storage_snapshot n.storage) n)
  ]

  -- Whether a snapshot is taken or not, and whatever fails on the way, the state machine, the status
  -- and the waiters stay as they are.
  pub maybe_trigger_snapshot-Keeps :
      (n : Node) → Keeps n (maybe_trigger_snapshot parts pb pebble json n).0
  unfolding maybe_trigger_snapshot
  maybe_trigger_snapshot-Keeps n = from_applied-Keeps (applied_index pebble n.kv_store) n

  -- Where the applied index and the last snapshot are read: an applied index of zero never starts a
  -- snapshot. Any other one starts one of the data exactly if it is at or above the index of
  -- the last snapshot by the threshold, or below it, where the threshold is at most the difference
  -- that has wrapped around; otherwise nothing happens.
  pub maybe_trigger_snapshot_lem :
      (n : Node) {applied : ℕ} {snap : Snapshot C}
      → applied_index pebble n.kv_store ≡ ok applied
      → parts.storage_snapshot n.storage ≡ ok snap
      → applied < 2 ^ 64
      → snap.index < 2 ^ 64
      → maybe_trigger_snapshot parts pb pebble json n ≡ (
          if not (applied == 0) && is_far applied snap.index n.cfg.snapshot_entries
          then after_export parts pb pebble json applied (snapshot pebble json n.kv_store) n
          else (n, none))
  unfolding maybe_trigger_snapshot from_applied from_current from_snapshot
  maybe_trigger_snapshot_lem n {applied} {snap} read last ha hl =
      let due = is_due_lem applied snap.index n.cfg.snapshot_entries ha hl in
      elim (Bool-cases (applied == 0)) [
        | inl zero_index ↦ rw (read, from_applied, zero_index) refl
        | inr some_index ↦ rw (read, from_applied, some_index, last, from_current, due) refl
      ]
