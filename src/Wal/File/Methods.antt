-- ===== src/Wal/File/Methods.antt =====
-- The methods of `FileWAL`: `Open`, `Append`, `Load`, `TruncatePrefix`, `Sync` and `Close`.
use stellmap_service.Base.{
  ℕ, ◌+◌, ◌%◌, ◌^◌, true, false, List, [], ◌∷◌, ◌++◌, Option, none, some, ltb, leb, ◌==◌,
  if◌then◌else◌, take, drop, get_last?, select, Result, ok, err, ◌>>=◌,
}
use stellmap_service.Text.{Bytes}
use stellmap_service.Raftnode.Ready.{HardState}
use stellmap_service.Wal.{merge_entries}
use stellmap_service.Wal.File.{
  WalError, not_open, undecodable, gap, empty_boundary, Codec, Segment, SegmentFiles, Directory,
  FileWal, no_state, is_empty_hard_state, put_file, remove_segments, framed, read_segment,
}
use stellmap_service.Wal.File.Writer.{
  next_segment_id, append_entries_incremental, segment_at, rewrite_tail,
}

module _ {E : Type 0} where
  unfoldable pub new_file_wal : FileWal E
  unfolding no_state
  new_file_wal = record { state = no_state; entries = []; segments = []; opened = false }

  unfoldable pub close_wal : FileWal E → FileWal E
  close_wal w = record w { opened = false }

  unfoldable pub load : FileWal E → Result WalError (HardState × List E)
  load w = if w.opened then ok (w.state, w.entries) else err not_open

  -- an empty hard state means that there is no new one
  unfoldable pub with_state : HardState → FileWal E → FileWal E
  unfolding is_empty_hard_state
  with_state state w = if is_empty_hard_state state then w else record w { state = state }

module _ {E : Type 0} (codec : Codec E) where
  unfoldable pub decoded_state : Option HardState → Result WalError HardState
  decoded_state none = err undecodable
  decoded_state (some s) = ok s

  unfoldable pub load_state : Option Bytes → Result WalError HardState
  unfolding decoded_state no_state
  load_state none = ok no_state
  load_state (some bs) = decoded_state (codec.decode_state bs)

  unfoldable pub persist_state : FileWal E → Directory → Directory
  persist_state w d = record d { hard_state = some (codec.encode_state w.state) }

  unfoldable pub sync : FileWal E → Directory → Result WalError Directory
  unfolding persist_state
  sync w d = if w.opened then ok (persist_state w d) else err not_open

  -- `rewriteSegmentFile`: all records, and the rename
  unfoldable pub records_of : List E → Bytes
  unfolding framed
  records_of [] = []
  records_of (e ∷ es) = framed (codec.encode_entry e) ++ records_of es

module _ {E : Type 0} (codec : Codec E) (index : E → ℕ) where
  -- the range of a segment; without entries there is none
  unfoldable pub segment_of : ℕ → List E → Option Segment
  segment_of id [] = none
  segment_of id (e ∷ es) = elim (get_last? (e ∷ es)) [
    | none ↦ none
    | some l ↦ some (record { id = id; first_index = index e; last_index = index l })
  ]

  unfoldable pub with_segment :
      List E → Option Segment → List E × List Segment → List E × List Segment
  with_segment es none rest = rest
  with_segment es (some s) (entries, segments) = (es ++ entries, s ∷ segments)

  unfoldable pub load_entries : SegmentFiles → Result WalError (List E × List Segment)
  unfolding with_segment segment_of read_segment
  load_entries [] = ok ([], [])
  load_entries ((id, bs) ∷ fs) = do
    es ← read_segment codec bs
    rest ← load_entries fs
    ok (with_segment es (segment_of id es) rest)

  unfoldable pub load_files : Directory → Result WalError (FileWal E)
  unfolding load_state load_entries
  load_files d = do
    state ← load_state codec d.hard_state
    (entries, segments) ← load_entries d.segment_files
    ok (record { state = state; entries = entries; segments = segments; opened = true })

  unfoldable pub open_wal : FileWal E → Directory → Result WalError (FileWal E)
  unfolding load_files
  open_wal w d = if w.opened then ok w else load_files d

  -- the entries of the boundary segment from an index on
  unfoldable pub boundary_entries : ℕ → ℕ → List E → List E
  boundary_entries low high [] = []
  boundary_entries low high (e ∷ es) =
      let rest = boundary_entries low high es in
      if ltb (index e) low then rest else if ltb high (index e) then [] else e ∷ rest

  unfoldable pub rewrite_boundary :
      Segment → List E → Option Segment → SegmentFiles → Result WalError (Segment × SegmentFiles)
  unfolding records_of put_file
  rewrite_boundary s es none fs = err empty_boundary
  rewrite_boundary s es (some t) fs = ok (t, put_file s.id (records_of codec es) fs)

  unfoldable pub cut_boundary :
      ℕ → List E → Segment → SegmentFiles → Result WalError (Segment × SegmentFiles)
  unfolding rewrite_boundary boundary_entries segment_of
  cut_boundary i filtered s fs =
      let es = boundary_entries i s.last_index filtered in
      if ltb s.first_index i then rewrite_boundary s es (segment_of s.id es) fs else ok (s, fs)

  -- with the segments in front of the boundary, and those from it on
  unfoldable pub truncate_at :
      ℕ
      → List E
      → FileWal E
      → Directory
      → List Segment
      → List Segment
      → Result WalError (FileWal E × Directory)
  unfolding cut_boundary remove_segments persist_state
  truncate_at i filtered w d dropped [] =
      let w' = record w { entries = []; segments = [] } in
      ok (
        w',
        persist_state codec w'
            (record d { segment_files = remove_segments w.segments d.segment_files }),
      )
  truncate_at i filtered w d dropped (s ∷ ss) = do
    (t, fs) ← cut_boundary i filtered s (remove_segments dropped d.segment_files)
    let w' = record w { entries = filtered; segments = t ∷ ss }
    ok (w', persist_state codec w' (record d { segment_files = fs }))

module _ {E : Type 0} (codec : Codec E) (index : E → ℕ) (limit : ℕ) where
  -- `filtered` without entries means that all segments go
  unfoldable pub truncate_filtered :
      ℕ → List E → FileWal E → Directory → Result WalError (FileWal E × Directory)
  unfolding truncate_at segment_at
  truncate_filtered i [] w d = truncate_at codec index i [] w d w.segments []
  truncate_filtered i (e ∷ es) w d =
      let p = segment_at i w.segments in
      truncate_at codec index i (e ∷ es) w d (take p w.segments) (drop p w.segments)

  unfoldable pub truncate_from :
      ℕ → List E → FileWal E → Directory → Result WalError (FileWal E × Directory)
  unfolding truncate_filtered
  truncate_from i [] w d = ok (w, persist_state codec w d)
  truncate_from i (e ∷ es) w d =
      if leb i (index e)
      then ok (w, persist_state codec w d)
      else truncate_filtered i (select (λ x. leb i (index x)) (e ∷ es)) w d

  unfoldable pub truncate_prefix :
      FileWal E → ℕ → Directory → Result WalError (FileWal E × Directory)
  unfolding truncate_from
  truncate_prefix w i d = if w.opened then truncate_from i w.entries w d else err not_open

  -- an append behind the last entry, or onto an empty log
  unfoldable pub append_behind :
      List E → FileWal E → Directory → Result WalError (FileWal E × Directory)
  unfolding append_entries_incremental
  append_behind es w d = do
    (w', d') ← append_entries_incremental codec index limit es (next_segment_id w.segments) true w d
    ok (record w' { entries = w'.entries ++ es }, d')

  unfoldable pub append_after :
      Option E → E → List E → FileWal E → Directory → Result WalError (FileWal E × Directory)
  unfolding append_behind rewrite_tail
  append_after none x xs w d = append_behind (x ∷ xs) w d
  append_after (some l) x xs w d =
      if index x == (index l + 1) % 2 ^ 64
      then append_behind (x ∷ xs) w d
      else if ltb ((index l + 1) % 2 ^ 64) (index x)
      then err gap
      else rewrite_tail codec index limit (index x) (merge_entries index w.entries (x ∷ xs)) w d

  unfoldable pub append_entries :
      List E → FileWal E → Directory → Result WalError (FileWal E × Directory)
  unfolding append_after
  append_entries [] w d = ok (w, d)
  append_entries (x ∷ xs) w d = append_after (get_last? w.entries) x xs w d

  unfoldable pub append :
      FileWal E → HardState → List E → Directory → Result WalError (FileWal E × Directory)
  unfolding append_entries persist_state with_state
  append w state es d =
      if w.opened
      then append_entries es (with_state state w) (persist_state codec (with_state state w) d)
      else err not_open
