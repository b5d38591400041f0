-- ===== src/Wal/File/Mirror.antt =====
-- What a log and its directory have in common: the layout of the entries in segments.
use stellmap_service.Base.{
  ℕ, ◌<◌, ◌≡◌, refl, sym, ap, ◌∙◌, true, List, [], ◌∷◌, ◌++◌, map, append_assoc, some, get_last?,
  All, ok,
}
use stellmap_service.Text.{Bytes}
use stellmap_service.Wal.File.{Codec, Segment, SegmentFiles, Directory, FileWal}
use stellmap_service.Wal.File.Methods.{
  records_of, segment_of, with_segment, load_state, load_entries, load_files, open_wal,
  new_file_wal,
}
use stellmap_service.Wal.File.Records.{IsLawful, read_segment-records_of}

-- a segment: its number, its first entry and the others
abbrev pub Part : Type 0 → Type 0
Part E = ℕ × E × List E

module _ {E : Type 0} where
  abbrev pub part_entries : Part E → List E
  part_entries (id, e, es) = e ∷ es

  abbrev pub last_of : E → List E → E
  last_of e [] = e
  last_of e (x ∷ xs) = last_of x xs

  abbrev pub entries_of : List (Part E) → List E
  entries_of [] = []
  entries_of (p ∷ ps) = part_entries p ++ entries_of ps

  -- the numbers grow
  abbrev pub Ordered : List (Part E) → Type 0
  Ordered [] = Unit
  Ordered (p ∷ ps) = All (λ q. p.0 < q.0) ps × Ordered ps

  get_last?-last_of : (e : E) (es : List E) → get_last? (e ∷ es) ≡ some (last_of e es)
  get_last?-last_of e [] = refl
  get_last?-last_of e (x ∷ xs) = get_last?-last_of x xs

  pub entries_of-append :
      (ps qs : List (Part E)) → entries_of (ps ++ qs) ≡ entries_of ps ++ entries_of qs
  entries_of-append [] qs = refl
  entries_of-append (p ∷ ps) qs =
      ap (λ l. part_entries p ++ l) (entries_of-append ps qs)
      ∙ sym (append_assoc (part_entries p) (entries_of ps) (entries_of qs))

module _ {E : Type 0} (index : E → ℕ) where
  abbrev pub segment_for : Part E → Segment
  segment_for (id, e, es) = record {
    id = id;
    first_index = index e;
    last_index = index (last_of e es);
  }

  abbrev pub segments_of : List (Part E) → List Segment
  segments_of ps = map segment_for ps

module _ {E : Type 0} (codec : Codec E) where
  abbrev pub file_for : Part E → ℕ × Bytes
  file_for p = (p.0, records_of codec (part_entries p))

  abbrev pub files_of : List (Part E) → SegmentFiles
  files_of ps = map file_for ps

module _ {E : Type 0} (codec : Codec E) (index : E → ℕ) where
  -- The log in memory is the one on the disk.
  pub record IsMirror (w : FileWal E) (d : Directory) : Type 0 where
    pub layout : List (Part E)
    pub files_same : d.segment_files ≡ files_of codec layout
    pub segments_same : w.segments ≡ segments_of index layout
    pub entries_same : w.entries ≡ entries_of layout
    pub ordered : Ordered layout
    pub state_same : load_state codec d.hard_state ≡ ok w.state

  pub segment_of_lem :
      (id : ℕ) (e : E) (es : List E)
      → segment_of codec index id (e ∷ es) ≡ some (segment_for index (id, e, es))
  unfolding segment_of
  segment_of_lem id e es = rw (segment_of, get_last?-last_of e es) refl

  load_entries-files_of :
      IsLawful codec
      → (ps : List (Part E))
      → load_entries codec index (files_of codec ps) ≡ ok (entries_of ps, segments_of index ps)
  unfolding load_entries with_segment
  load_entries-files_of lawful [] = refl
  load_entries-files_of lawful ((id, e, es) ∷ ps) =
      rw
        (
          read_segment-records_of codec lawful (e ∷ es),
          load_entries-files_of lawful ps,
          segment_of_lem id e es,
        )
        refl

  -- Opening a new log on the directory gives back the log: its hard state, its entries and its
  -- segments.
  pub open_wal-IsMirror :
      (w : FileWal E) (d : Directory)
      → IsLawful codec
      → IsMirror w d
      → open_wal codec index new_file_wal d ≡ ok (record w { opened = true })
  unfolding open_wal load_files new_file_wal
  open_wal-IsMirror w d lawful m =
      rw
        (
          m.state_same,
          m.files_same,
          load_entries-files_of lawful m.layout,
          ← m.entries_same,
          ← m.segments_same,
        )
        refl
