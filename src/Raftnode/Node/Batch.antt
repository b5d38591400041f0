-- ===== src/Raftnode/Node/Batch.antt =====
-- One round of `handleReady`, and a whole restart without a snapshot.
use stellmap_service.Base.{
  ℕ, ◌≡◌, inl, inr, refl, sym, ap, ◌∙◌, subst, Bool, true, false, ◌||◌, List, [], ◌∷◌, Option, none,
  some, Bool-cases, length, pos, int_leb, ok,
}
use stellmap_service.Raftnode.Ready.{
  StateType, Ready, Entry, HardState, Protobuf, RaftReady, convert_ready,
}
use stellmap_service.Raftnode.Node.Loop.{
  prepare, finish_batch, handle_ready, maybe_trigger_snapshot, persist, emit_ready,
}
use stellmap_service.Text.{Bytes}
use stellmap_service.Storage.Memory.Laws.{Content}
use stellmap_service.Storage.Pebble.Engine.{Database, IsDatabase, Json}
use stellmap_service.Storage.Pebble.Prefix.{IsClean}
use stellmap_service.Storage.Pebble.{PebbleStore, is_meta_key}
use stellmap_service.Raftnode.Waiters.{Waiters}
use stellmap_service.Raftnode.Waiters.Answers
use stellmap_service.Raftnode.Waiters.Answers.{handle_read_states-IsValid}
use stellmap_service.Raftnode.Node.{
  RaftNode, Parts, Status, apply_committed_entries, last_index, last_term, update_status,
  seen_committed, seen_hard_state, seen_soft_state,
}
use stellmap_service.Raftnode.Node.Apply.{
  meanings, commands_of, NeverFails, IsOpen, held, apply_entries-content, mark_applied-content,
}
use stellmap_service.Raftnode.Node.Compaction.{Keeps, maybe_trigger_snapshot-Keeps}

module _ {R S W N C M D : Type 0} (parts : Parts R S W N C) (pb : Protobuf C M)
    (pebble : Database D) (json : Json) (content_of : D → Content)
    (laws : IsDatabase pebble content_of) (never_fails : NeverFails pebble) where
  abbrev Node : Type 0
  Node = RaftNode R S W N D M

  abbrev pub node_content : Node → Content
  node_content n = held parts pb pebble json content_of laws never_fails n.kv_store

  apply_committed_entries-content :
      (es : List Entry) (n : Node) (key : Bytes)
      → IsClean key
      → is_meta_key key ≡ false
      → IsOpen n.kv_store
      → (node_content (apply_committed_entries parts pb pebble json es n) key
          ≡ meanings (commands_of parts.decode_command es) (node_content n) key)
        × IsOpen (apply_committed_entries parts pb pebble json es n).kv_store
  unfolding apply_committed_entries
  apply_committed_entries-content [] n key clean plain op = (refl, op)
  apply_committed_entries-content (e ∷ es) n key clean plain op =
      let (applied, op1) =
        apply_entries-content parts pb pebble json content_of laws never_fails (e ∷ es) n.raft_node
          n.kv_store key clean op in
      let (marked, op2) =
        mark_applied-content parts pb pebble json content_of laws never_fails
          (last_index 0 (e ∷ es)) (last_term 0 (e ∷ es)) _ key plain op1 in
      (marked ∙ applied, op2)

  waiters-apply_committed_entries :
      (es : List Entry) (n : Node)
      → (apply_committed_entries parts pb pebble json es n).waiters ≡ n.waiters
  unfolding apply_committed_entries
  waiters-apply_committed_entries [] n = refl
  waiters-apply_committed_entries (e ∷ es) n = refl

  applied_index-seen_soft_state :
      (o : Option (ℕ × StateType)) (st : Status)
      → (seen_soft_state parts pb pebble json o st).applied_index ≡ st.applied_index
  unfolding seen_soft_state
  applied_index-seen_soft_state none st = refl
  applied_index-seen_soft_state (some (lead, state)) st = refl

  applied_index-seen_hard_state :
      (hs : HardState) (st : Status)
      → (seen_hard_state parts pb pebble json hs st).applied_index ≡ st.applied_index
  unfolding seen_hard_state
  applied_index-seen_hard_state hs st = elim (Bool-cases (pb.is_empty_hard_state hs)) [
    | inl e ↦ rw e refl
    | inr e ↦ rw e refl
  ]

  applied_index-seen_committed :
      (es : List Entry) (st : Status)
      → (seen_committed parts pb pebble json es st).applied_index ≡ last_index st.applied_index es
  unfolding seen_committed last_index
  applied_index-seen_committed [] st = refl
  applied_index-seen_committed (e ∷ es) st = refl

  applied_index-update_status :
      (rd : RaftReady C M) (st : Status)
      → (update_status parts pb pebble json rd st).applied_index
        ≡ last_index st.applied_index rd.committed_entries
  unfolding update_status
  applied_index-update_status rd st =
      applied_index-seen_committed rd.committed_entries _
      ∙ ap (λ (i : ℕ). last_index i rd.committed_entries)
          (applied_index-seen_hard_state rd.hard_state _
            ∙ applied_index-seen_soft_state rd.soft_state st)

  applied_index-apply_committed_entries :
      (es : List Entry) (n : Node)
      → last_index (apply_committed_entries parts pb pebble json es n).status.applied_index es
        ≡ last_index n.status.applied_index es
  unfolding apply_committed_entries last_index
  applied_index-apply_committed_entries [] n = refl
  applied_index-apply_committed_entries (e ∷ es) n = refl

  emit_ready-Keeps :
      (stopping : Bool) (ready : Ready M) (n : Node)
      → Keeps parts pb pebble json n (emit_ready parts pb pebble json stopping ready n)
  unfolding emit_ready
  emit_ready-Keeps stopping ready n =
      elim (Bool-cases (stopping || int_leb n.cfg.ready_buffer_size (pos (length n.ready_ch)))) [
        | inl e ↦ rw e (refl, refl, refl)
        | inr e ↦ rw e (refl, refl, refl)
      ]

  persist-Keeps :
      (hs : HardState) (es : List Entry) (n : Node)
      → Keeps parts pb pebble json n (persist parts pb pebble json hs es n)
  unfolding persist
  persist-Keeps hs es n = (refl, refl, refl)

  prepare-Keeps :
      (rd : RaftReady C M) (n : Node)
      → pb.is_empty_snap rd.snapshot ≡ true
      → Keeps parts pb pebble json n (prepare parts pb pebble json rd n)
  unfolding prepare
  prepare-Keeps rd n no_snap = rw no_snap (persist-Keeps rd.hard_state rd.entries n)

  finish_batch_lem :
      (stopping : Bool) (rd : RaftReady C M) (ws : Waiters) (n : Node) (key : Bytes)
      → IsClean key
      → is_meta_key key ≡ false
      → IsOpen n.kv_store
      → ((finish_batch parts pb pebble json stopping rd ws n).waiters ≡ ws)
        × (node_content (finish_batch parts pb pebble json stopping rd ws n) key
            ≡ meanings (commands_of parts.decode_command rd.committed_entries) (node_content n) key)
        × ((finish_batch parts pb pebble json stopping rd ws n).status.applied_index
            ≡ last_index n.status.applied_index rd.committed_entries)
  unfolding finish_batch
  finish_batch_lem stopping rd ws n key clean plain op =
      let woken : Node = record n { waiters = ws } in
      let es = rd.committed_entries in
      let n2 = apply_committed_entries parts pb pebble json es woken in
      let n2' : Node = record n2 { status = update_status parts pb pebble json rd n2.status } in
      let n3 = (maybe_trigger_snapshot parts pb pebble json n2').0 in
      let (kv3, st3, ws3) = maybe_trigger_snapshot-Keeps parts pb pebble json n2' in
      let (kv4, st4, ws4) = emit_ready-Keeps stopping (convert_ready pb rd) n3 in
      let (applied, _) = apply_committed_entries-content es woken key clean plain op in
      (
        ws4 ∙ ws3 ∙ waiters-apply_committed_entries es woken,
        ap (λ (s : PebbleStore D). held parts pb pebble json content_of laws never_fails s key)
              (kv4 ∙ kv3)
            ∙ applied,
        ap (λ (st : Status). st.applied_index) (st4 ∙ st3)
            ∙ applied_index-update_status rd n2.status
            ∙ applied_index-apply_committed_entries es woken,
      )

  -- A batch without a snapshot goes through, whatever errors the log, the storage of Raft and the
  -- snapshot files return and whether or not the node is stopping, when the waiters are valid: it
  -- leaves them valid, each key of the data without a byte 0xFF gets what the committed entries mean,
  -- and the status has the index of the last of them. The store of the data is open and commits
  -- without errors, and no call of Raft or of its memory storage panics.
  pub handle_ready_lem :
      (stopping : Bool) (rd : RaftReady C M) (n : Node) (key : Bytes)
      → pb.is_empty_snap rd.snapshot ≡ true
      → Answers.IsValid n.waiters
      → IsClean key
      → is_meta_key key ≡ false
      → IsOpen n.kv_store
      → (n' : Node) × (handle_ready parts pb pebble json stopping rd n ≡ ok n')
        × Answers.IsValid n'.waiters
        × (node_content n' key
            ≡ meanings (commands_of parts.decode_command rd.committed_entries) (node_content n) key)
        × (n'.status.applied_index ≡ last_index n.status.applied_index rd.committed_entries)
  unfolding handle_ready
  handle_ready_lem stopping rd n key no_snap v clean plain op =
      let n1 = prepare parts pb pebble json rd n in
      let (kv1, st1, ws1) = prepare-Keeps rd n no_snap in
      let (ws, h, valid) = handle_read_states-IsValid rd.read_states n.waiters v in
      let (same, changed, index) =
        finish_batch_lem stopping rd ws n1 key clean plain (subst IsOpen (sym kv1) op) in
      let es = rd.committed_entries in
      (
        finish_batch parts pb pebble json stopping rd ws n1,
        rw (ws1, h) refl,
        subst Answers.IsValid (sym same) valid,
        changed
            ∙ ap
                (λ (s : PebbleStore D).
                  meanings (commands_of parts.decode_command es)
                    (held parts pb pebble json content_of laws never_fails s) key)
                kv1,
        index ∙ ap (λ (st : Status). last_index st.applied_index es) st1,
      )
