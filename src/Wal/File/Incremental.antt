-- ===== src/Wal/File/Incremental.antt =====
-- `appendEntriesIncremental` on a log that is the one on the disk.
use stellmap_service.Base.{
  ℕ, ◌+◌, ◌^◌, ◌<◌, ◌≡◌, inl, inr, refl, sym, ap, ◌∙◌, subst, Bool, true, false, List, [], ◌∷◌,
  ◌++◌, append-nil, Option, none, some, arith, length, All, All-append, Result, ok, ◌>>=◌,
}
use mathlib.Core.Option
use stellmap_service.Wal.File.Writer.{
  next_segment_id, Writer, optional, writer_at, append_entries_incremental,
}
use stellmap_service.Wal.File.Mirror.{
  segment_for, Part, entries_of, Ordered, segments_of, files_of, IsMirror,
}
use stellmap_service.Wal.File.{WalError, Codec, Segment, Directory, FileWal}
use stellmap_service.Wal.File.Writing.{optional_part, Writes}
use stellmap_service.Wal.File.Layouts.{Ordered-init, All-weaken, IsIndex}
use stellmap_service.Wal.File.Looping.{segments-Writes, write_entries-Wrote}
use stellmap_service.Wal.File.Starting.{
  last-cases, next_segment_id_last, writer_at_new, behind_last, behind_none,
}

-- There are numbers left for as many new segments.
abbrev pub HasRoom : ℕ → List Segment → Type 0
HasRoom k segments = (k + 1 < 2 ^ 64) × All (λ s. s.id + k + 1 < 2 ^ 64) segments

module _ {E : Type 0} (codec : Codec E) (index : E → ℕ) (limit : ℕ) where
  -- What the append of some entries gives.
  pub record Extended (es : List E) (w : FileWal E) (d : Directory) (before : List (Part E))
      (r : Result WalError (FileWal E × Directory)) : Type 0 where
    pub wal : FileWal E
    pub directory : Directory
    pub layout : List (Part E)
    pub returned : r ≡ ok (wal, directory)
    pub files_same : directory.segment_files ≡ files_of codec layout
    pub segments_same : wal.segments ≡ segments_of index layout
    pub ordered : Ordered layout
    pub layout_entries : entries_of layout ≡ entries_of before ++ es
    pub entries_kept : wal.entries ≡ w.entries
    pub state_kept : wal.state ≡ w.state
    pub opened_kept : wal.opened ≡ w.opened
    pub hard_state_kept : directory.hard_state ≡ d.hard_state

  incremental-Extended :
      IsIndex index
      → (es : List E) (start_id : ℕ) (reuse : Bool) (w : FileWal E) (d : Directory)
        (ps : List (Part E)) (last : Option (Part E))
      → Writes codec index limit (writer_at start_id reuse w.segments d.segment_files) ps last
      → (writer_at start_id reuse w.segments d.segment_files).next_id ≡ start_id
      → w.segments ≡ segments_of index (ps ++ optional_part last)
      → d.segment_files ≡ files_of codec (ps ++ optional_part last)
      → start_id + length es < 2 ^ 64
      → Extended es w d
          (ps ++ optional_part last)
          (append_entries_incremental codec index limit es start_id reuse w d)
  unfolding append_entries_incremental
  incremental-Extended bounds [] start_id reuse w d ps last h n segs fs room = record {
    wal = w;
    directory = d;
    layout = ps ++ optional_part last;
    returned = refl;
    files_same = fs;
    segments_same = segs;
    ordered = h.ordered;
    layout_entries = sym (append-nil (entries_of (ps ++ optional_part last)));
    entries_kept = refl;
    state_kept = refl;
    opened_kept = refl;
    hard_state_kept = refl;
  }
  incremental-Extended bounds (e ∷ es) start_id reuse w d ps last h n segs fs room =
      let wr = writer_at start_id reuse w.segments d.segment_files in
      let out =
        write_entries-Wrote codec index limit bounds (e ∷ es) wr ps last h (omega (arith, n)) in
      record {
        wal = record w { segments = out.writer.front ++ optional out.writer.last_segment };
        directory = record d { segment_files = out.writer.files };
        layout = out.front_parts ++ optional_part out.last_part;
        returned =
            ap
              (λ (m : Result WalError Writer). m >>= λ (r : Writer). ok (
                record w { segments = r.front ++ optional r.last_segment },
                record d { segment_files = r.files },
              ))
              out.returned;
        files_same = out.writes.files_same;
        segments_same =
            segments-Writes codec index limit out.writer out.front_parts out.last_part out.writes;
        ordered = out.writes.ordered;
        layout_entries = out.entries_same;
        entries_kept = refl;
        state_kept = refl;
        opened_kept = refl;
        hard_state_kept = refl;
      }

  Extended-from :
      IsIndex index
      → (es : List E) (start_id : ℕ) (reuse : Bool) (w : FileWal E) (d : Directory)
        (ps : List (Part E)) (last : Option (Part E))
      → writer_at start_id reuse w.segments d.segment_files ≡ record {
        front = segments_of index ps;
        last_segment = Option.map (segment_for index) last;
        next_id = start_id;
        files = d.segment_files;
      }
      → w.segments ≡ segments_of index (ps ++ optional_part last)
      → d.segment_files ≡ files_of codec (ps ++ optional_part last)
      → Ordered (ps ++ optional_part last)
      → All (λ p. p.0 < start_id) (ps ++ optional_part last)
      → start_id + length es < 2 ^ 64
      → Extended es w d
          (ps ++ optional_part last)
          (append_entries_incremental codec index limit es start_id reuse w d)
  Extended-from bounds es start_id reuse w d ps last e segs fs o below room =
      incremental-Extended bounds es start_id reuse w d ps last
        (subst (λ (wr : Writer). Writes codec index limit wr ps last) (sym e)
          (record {
            front_same = refl;
            last_same = refl;
            files_same = fs;
            below = below;
            ordered = o;
          }))
        (ap (λ (wr : Writer). wr.next_id) e) segs fs room

  -- new segments behind those of a layout
  pub Extended-new :
      IsIndex index
      → (es : List E) (id : ℕ) (w : FileWal E) (d : Directory) (ps : List (Part E))
      → w.segments ≡ segments_of index ps
      → d.segment_files ≡ files_of codec ps
      → Ordered ps
      → All (λ p. p.0 < id) ps
      → id + length es < 2 ^ 64
      → Extended es w d ps (append_entries_incremental codec index limit es id false w d)
  Extended-new bounds es id w d ps segs fs o below room =
      let whole : ps ++ [] ≡ ps = append-nil ps in
      subst
        (λ (qs : List (Part E)).
          Extended es w d qs (append_entries_incremental codec index limit es id false w d))
        whole
        (Extended-from bounds es id false w d ps none
          (writer_at_new id w.segments d.segment_files
            ∙ ap
                (λ (l : List Segment). record {
                  front = l;
                  last_segment = none;
                  next_id = id;
                  files = d.segment_files;
                })
                segs)
          (rw whole segs) (rw whole fs) (rw whole o) (rw whole below) room)

  last_room :
      (k : ℕ) (ps : List (Part E)) (p : Part E)
      → All (λ s. s.id + k + 1 < 2 ^ 64) (segments_of index (ps ++ p ∷ []))
      → p.0 + k + 1 < 2 ^ 64
  last_room k [] p (h, hs) = h
  last_room k (q ∷ ps) p (h, hs) = last_room k ps p hs

  -- the last segment first
  pub Extended-behind :
      IsIndex index
      → (es : List E) (w : FileWal E) (d : Directory) (m : IsMirror codec index w d)
      → HasRoom (length es) w.segments
      → Extended es w d m.layout
          (append_entries_incremental codec index limit es (next_segment_id w.segments) true w d)
  Extended-behind bounds es w d m (some_room, room) = elim (last-cases m.layout) [
    | inl e ↦
        let segs : w.segments ≡ [] = m.segments_same ∙ ap (segments_of index) e in
        let (wr, n) = behind_none w.segments d.segment_files segs in
        subst
          (λ (qs : List (Part E)).
            Extended es w d qs (
              append_entries_incremental codec index limit es (next_segment_id w.segments) true w
                d))
          (sym e)
          (Extended-from bounds es (next_segment_id w.segments) true w d [] none wr segs
            (m.files_same ∙ ap (files_of codec) e) tt tt (omega arith))
    | inr (ps, p, e) ↦
        let segs : w.segments ≡ segments_of index (ps ++ p ∷ []) =
          m.segments_same ∙ ap (segments_of index) e in
        let fits = last_room (length es) ps p (rw segs at room) in
        let n = ap next_segment_id segs ∙ next_segment_id_last index ps p (omega arith) in
        let (o, below) = Ordered-init ps p (subst Ordered e m.ordered) in
        subst
          (λ (qs : List (Part E)).
            Extended es w d qs (
              append_entries_incremental codec index limit es (next_segment_id w.segments) true w
                d))
          (sym e)
          (Extended-from bounds es (next_segment_id w.segments) true w d ps (some p)
            (behind_last index w.segments ps p d.segment_files segs) segs
            (m.files_same ∙ ap (files_of codec) e) (subst Ordered e m.ordered)
            (rw n (
              All-append (λ q. q.0 < p.0 + 1) ps (p ∷ [])
                (All-weaken (λ q. q.0 < p.0) (λ q. q.0 < p.0 + 1) ps (λ q h. omega arith) below)
                (omega arith, tt)))
            (omega arith))
  ]
