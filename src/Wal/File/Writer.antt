-- ===== src/Wal/File/Writer.antt =====
-- `appendEntriesIncremental` and `rewriteTail`. `lastSegment` points at the last of the segments, or
-- at none: the segments are those in front of it, and it.
use stellmap_service.Base.{
  ℕ, zero, suc, ◌+◌, ◌-◌, ◌%◌, ◌^◌, Bool, true, false, ◌&&◌, List, [], ◌∷◌, ◌++◌, Option, none,
  some, ltb, leb, ◌==◌, if◌then◌else◌, length, take, drop, get_last?, select, Result, ok, err,
  ◌>>=◌,
}
use stellmap_service.Text.{Bytes}
use stellmap_service.Wal.{search}
use stellmap_service.Wal.File.{
  WalError, not_exist, Codec, Segment, SegmentFiles, Directory, FileWal, file_content, put_file,
  extend_file, remove_segments, framed,
}

pub record Writer : Type 0 where
  pub front : List Segment
  pub last_segment : Option Segment
  pub next_id : ℕ
  pub files : SegmentFiles

abbrev pub optional : Option Segment → List Segment
optional none = []
optional (some s) = s ∷ []

unfoldable pub next_segment_id : List Segment → ℕ
next_segment_id segments = elim (get_last? segments) [ none ↦ 1 | some s ↦ (s.id + 1) % 2 ^ 64 ]

-- `createSegment`, and what its callers do with the new segment
unfoldable pub create_segment : ℕ → Writer → Writer
unfolding put_file
create_segment first_index w = record {
  front = w.front ++ optional w.last_segment;
  last_segment = some (record {
    id = w.next_id;
    first_index = first_index;
    last_index = (first_index + (2 ^ 64 - 1)) % 2 ^ 64;
  });
  next_id = (w.next_id + 1) % 2 ^ 64;
  files = put_file w.next_id [] w.files;
}

-- the segment that the test of `lastSegment == nil` leaves
unfoldable pub started : ℕ → Writer → Option Segment → Writer
unfolding create_segment
started first_index w none = create_segment first_index w
started first_index w (some s) = w

unfoldable pub reach_index : ℕ → Segment → Segment
reach_index i s = record s {
  first_index = if s.first_index == 0 then i else s.first_index;
  last_index = i;
}

-- `appendRecord`, and the new range of the segment
unfoldable pub append_record : ℕ → Bytes → Writer → Option Segment → Result WalError Writer
unfolding framed extend_file reach_index
append_record i bytes w none = err not_exist
append_record i bytes w (some s) = elim (file_content s.id w.files) [
  | none ↦ err not_exist
  | some _ ↦ ok (record w {
    last_segment = some (reach_index i s);
    files = extend_file s.id (framed bytes) w.files;
  })
]

-- the size of the last segment, and a new segment where the record does not fit
unfoldable pub rolled : ℕ → ℕ → ℕ → Writer → Option Segment → Result WalError Writer
unfolding create_segment file_content
rolled limit i record_size w none = err not_exist
rolled limit i record_size w (some s) = elim (file_content s.id w.files) [
  | none ↦ err not_exist
  | some bs ↦
      ok
        (if ltb 0 (length bs) && ltb limit (length bs + record_size) then create_segment i w else w)
]

-- `appendToLast && len(segments) > 0 && startSegmentID == nextSegmentID(w.segments)`
unfoldable pub writer_at : ℕ → Bool → List Segment → SegmentFiles → Writer
unfolding next_segment_id
writer_at start_id append_to_last segments files = elim (get_last? segments) [
  | none ↦ record { front = segments; last_segment = none; next_id = start_id; files = files }
  | some s ↦
      if append_to_last && start_id == next_segment_id segments
      then record {
        front = take (length segments - 1) segments;
        last_segment = some s;
        next_id = start_id;
        files = files;
      }
      else record { front = segments; last_segment = none; next_id = start_id; files = files }
]

-- whether a segment, the one at a place, ends at an index or behind it
unfoldable pub ends_at : ℕ → List Segment → ℕ → Bool
ends_at i [] h = true
ends_at i (s ∷ ss) zero = leb i s.last_index
ends_at i (s ∷ ss) (suc h) = ends_at i ss h

unfoldable pub segment_at : ℕ → List Segment → ℕ
unfolding search ends_at
segment_at i segments = search (length segments) (ends_at i segments)

module _ {E : Type 0} (codec : Codec E) (index : E → ℕ) (limit : ℕ) where
  -- the body of the loop
  unfoldable pub write_entry : E → Writer → Result WalError Writer
  unfolding started rolled append_record
  write_entry e w = do
    let bytes = codec.encode_entry e
    let w1 = started (index e) w w.last_segment
    w2 ← rolled limit (index e) (4 + length bytes) w1 w1.last_segment
    append_record (index e) bytes w2 w2.last_segment

  unfoldable pub write_entries : List E → Writer → Result WalError Writer
  unfolding write_entry
  write_entries [] w = ok w
  write_entries (e ∷ es) w = write_entry e w >>= write_entries es

  unfoldable pub append_entries_incremental :
      List E → ℕ → Bool → FileWal E → Directory → Result WalError (FileWal E × Directory)
  unfolding write_entries writer_at
  append_entries_incremental [] start_id append_to_last w d = ok (w, d)
  append_entries_incremental (e ∷ es) start_id append_to_last w d = do
    r ← write_entries (e ∷ es) (writer_at start_id append_to_last w.segments d.segment_files)
    ok (
      record w { segments = r.front ++ optional r.last_segment },
      record d { segment_files = r.files },
    )

  -- with the segments from the affected one on
  unfoldable pub rewrite_from :
      List E
      → FileWal E
      → Directory
      → List Segment
      → List Segment
      → Result WalError (FileWal E × Directory)
  unfolding append_entries_incremental remove_segments
  rewrite_from merged w d preserved [] = do
    (w', d') ← append_entries_incremental merged (next_segment_id w.segments) true w d
    ok (record w' { entries = merged }, d')
  rewrite_from merged w d preserved (s ∷ ss) = do
    let d1 = record d { segment_files = remove_segments (s ∷ ss) d.segment_files }
    let kept = select (λ e. ltb (index e) s.first_index) w.entries
    let rewritten = select (λ e. leb s.first_index (index e)) merged
    (w', d') ←
        append_entries_incremental rewritten s.id false
          (record w { segments = preserved; entries = kept }) d1
    ok (record w' { entries = w'.entries ++ rewritten }, d')

  -- without segments too, the last branch of `rewrite_from` writes all
  unfoldable pub rewrite_tail :
      ℕ → List E → FileWal E → Directory → Result WalError (FileWal E × Directory)
  unfolding rewrite_from segment_at
  rewrite_tail overlap merged w d =
      let p = segment_at overlap w.segments in
      rewrite_from merged w d (take p w.segments) (drop p w.segments)
