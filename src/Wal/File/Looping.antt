-- ===== src/Wal/File/Looping.antt =====
-- The loop of `appendEntriesIncremental`, entry by entry.
use stellmap_service.Base.{
  ℕ, ◌+◌, ◌%◌, ◌^◌, ◌≤◌, ◌<◌, ◌≡◌, inl, inr, refl, sym, ap, ap₂, ◌∙◌, false, List, [], ◌∷◌, ◌++◌,
  append-nil, append_assoc, Option, none, some, arith, ◌==◌, length, All, All-append, Result, ok,
  ◌>>=◌,
}
use mathlib.Core.Option
use mathlib.Core.List.{map-append}
use stellmap_service.Text.{Bytes}
use stellmap_service.Wal.File.{WalError, Codec, Segment, SegmentFiles, framed}
use stellmap_service.Wal.File.Methods.{records_of}
use stellmap_service.Wal.File.Writer.{Writer, optional, reach_index, write_entry, write_entries}
use stellmap_service.Wal.File.Mirror.{
  Part, part_entries, entries_of, entries_of-append, segment_for, segments_of, file_for, files_of,
}
use stellmap_service.Wal.File.Writing.{
  optional_part, Below, in_new, in_last, write_entry_first, write_entry_next, Writes,
}
use stellmap_service.Wal.File.Layouts.{
  IsIndex, All-split, All-weaken, Ordered-append_last, Ordered-init, last_of_append,
  entries_of_last,
}

module _ {E : Type 0} (codec : Codec E) (index : E → ℕ) (limit : ℕ) where
  pub Below-files_of :
      (n : ℕ) (ps : List (Part E)) → All (λ p. p.0 < n) ps → Below n (files_of codec ps)
  Below-files_of n [] h = tt
  Below-files_of n (p ∷ ps) (h, hs) = (h, Below-files_of n ps hs)

  records_of-append :
      (es fs : List E) → records_of codec (es ++ fs) ≡ records_of codec es ++ records_of codec fs
  unfolding records_of
  records_of-append [] fs = refl
  records_of-append (e ∷ es) fs =
      ap (λ (bs : Bytes). framed (codec.encode_entry e) ++ bs) (records_of-append es fs)
      ∙ sym
          (append_assoc (framed (codec.encode_entry e)) (records_of codec es) (records_of codec fs))

  records_of_one : (e : E) → records_of codec (e ∷ []) ≡ framed (codec.encode_entry e)
  unfolding records_of
  records_of_one e = append-nil (framed (codec.encode_entry e))

  -- What a run of the loop over entries gives.
  pub record Wrote (es : List E) (n : ℕ) (before : List (Part E)) (r : Result WalError Writer)
      : Type 0 where
    pub writer : Writer
    pub front_parts : List (Part E)
    pub last_part : Option (Part E)
    pub returned : r ≡ ok writer
    pub writes : Writes codec index limit writer front_parts last_part
    pub next_id_le : writer.next_id ≤ n + length es
    pub entries_same : entries_of (front_parts ++ optional_part last_part) ≡ entries_of before ++ es

  optional-map :
      (last : Option (Part E))
      → optional (Option.map (segment_for index) last) ≡ segments_of index (optional_part last)
  optional-map none = refl
  optional-map (some p) = refl

  pub segments-Writes :
      (w : Writer) (ps : List (Part E)) (last : Option (Part E))
      → Writes codec index limit w ps last
      → w.front ++ optional w.last_segment ≡ segments_of index (ps ++ optional_part last)
  segments-Writes w ps last h =
      ap₂ (λ (a b : List Segment). a ++ b) h.front_same
        (ap optional h.last_same ∙ optional-map last)
      ∙ sym (map-append (segment_for index) ps (optional_part last))

  files_of-append_last :
      (ps : List (Part E)) (p : Part E) (fs : SegmentFiles) (bs : Bytes)
      → fs ≡ files_of codec ps
      → bs ≡ records_of codec (part_entries p)
      → fs ++ (p.0, bs) ∷ [] ≡ files_of codec (ps ++ p ∷ [])
  files_of-append_last ps p fs bs h e =
      ap₂ (λ (a : SegmentFiles) (b : Bytes). a ++ (p.0, b) ∷ []) h e
      ∙ sym (map-append (file_for codec) ps (p ∷ []))

  Wrote-new :
      (e : E) (w : Writer) (ps : List (Part E)) (last : Option (Part E))
      (r : Result WalError Writer)
      → Writes codec index limit w ps last
      → w.next_id + 1 < 2 ^ 64
      → r ≡ ok (in_new codec index limit e w)
      → Wrote (e ∷ []) w.next_id (ps ++ optional_part last) r
  Wrote-new e w ps last r h room done =
      let n : (w.next_id + 1) % 2 ^ 64 ≡ w.next_id + 1 = omega arith in
      record {
        writer = in_new codec index limit e w;
        front_parts = ps ++ optional_part last;
        last_part = some (w.next_id, e, []);
        returned = done;
        writes = record {
          front_same = segments-Writes w ps last h;
          last_same = refl;
          files_same =
              files_of-append_last (ps ++ optional_part last) (w.next_id, e, []) w.files
                (framed (codec.encode_entry e)) h.files_same (sym (records_of_one e));
          below = rw n (
              All-append (λ p. p.0 < w.next_id + 1) (ps ++ optional_part last)
                ((w.next_id, e, []) ∷ [])
                (All-weaken (λ p. p.0 < w.next_id) (λ p. p.0 < w.next_id + 1)
                  (ps ++ optional_part last) (λ p b. omega arith) h.below)
                (omega arith, tt));
          ordered =
              Ordered-append_last (ps ++ optional_part last) (w.next_id, e, []) h.ordered h.below;
        };
        next_id_le = omega arith;
        entries_same = entries_of-append (ps ++ optional_part last) ((w.next_id, e, []) ∷ []);
      }

  reach_index-longer :
      IsIndex index
      → (id : ℕ) (a e : E) (es : List E)
      → reach_index (index e) (segment_for index (id, a, es))
        ≡ segment_for index (id, a, es ++ e ∷ [])
  unfolding reach_index
  reach_index-longer bounds id a e es =
      let p = bounds.positive a in
      let nz : (index a == 0) ≡ false = ground arith in rw (nz, last_of_append a e es) refl

  Wrote-last :
      IsIndex index
      → (e a : E) (id : ℕ) (es : List E) (w : Writer) (ps : List (Part E))
        (r : Result WalError Writer)
      → Writes codec index limit w ps (some (id, a, es))
      → r
        ≡ ok (
            in_last codec index limit e
              (segment_for index (id, a, es))
              (files_of codec ps)
              (records_of codec (a ∷ es))
              w)
      → Wrote (e ∷ []) w.next_id (ps ++ (id, a, es) ∷ []) r
  Wrote-last bounds e a id es w ps r h done =
      let (below, last) = All-split (λ p. p.0 < w.next_id) ps ((id, a, es) ∷ []) h.below in
      let (o, hs) = Ordered-init ps (id, a, es) h.ordered in
      record {
        writer =
            in_last codec index limit e (segment_for index (id, a, es)) (files_of codec ps)
              (records_of codec (a ∷ es)) w;
        front_parts = ps;
        last_part = some (id, a, es ++ e ∷ []);
        returned = done;
        writes = record {
          front_same = h.front_same;
          last_same = ap some (reach_index-longer bounds id a e es);
          files_same =
              files_of-append_last ps (id, a, es ++ e ∷ []) (files_of codec ps) _ refl
                (ap (λ (bs : Bytes). records_of codec (a ∷ es) ++ bs) (sym (records_of_one e))
                  ∙ sym (records_of-append (a ∷ es) (e ∷ [])));
          below = All-append (λ p. p.0 < w.next_id) ps ((id, a, es ++ e ∷ []) ∷ []) below last;
          ordered = Ordered-append_last ps (id, a, es ++ e ∷ []) o hs;
        };
        next_id_le = omega arith;
        entries_same =
            entries_of_last ps (id, a, es ++ e ∷ [])
            ∙ sym (append_assoc (entries_of ps) (a ∷ es) (e ∷ []))
            ∙ ap (λ (l : List E). l ++ e ∷ []) (sym (entries_of_last ps (id, a, es)));
      }

  write_entry-Wrote :
      IsIndex index
      → (e : E) (w : Writer) (ps : List (Part E)) (last : Option (Part E))
      → Writes codec index limit w ps last
      → w.next_id + 1 < 2 ^ 64
      → Wrote (e ∷ []) w.next_id (ps ++ optional_part last) (write_entry codec index limit e w)
  write_entry-Wrote bounds e w ps none h room =
      let b = Below-files_of w.next_id (ps ++ []) h.below in
      Wrote-new e w ps none _ h room
        (write_entry_first codec index limit e w h.last_same (rw (← h.files_same) at b))
  write_entry-Wrote bounds e w ps (some (id, a, es)) h room =
      let p : Part E = (id, a, es) in
      let b = Below-files_of w.next_id (ps ++ p ∷ []) h.below in
      let (o, hs) = Ordered-init ps p h.ordered in
      elim (write_entry_next codec index limit e w (segment_for index p) (files_of codec ps)
        (records_of codec (a ∷ es)) h.last_same
        (h.files_same ∙ map-append (file_for codec) ps (p ∷ [])) (Below-files_of id ps hs)
        (rw (← h.files_same) at b)) [
          | inl new ↦ Wrote-new e w ps (some p) _ h room new
          | inr same ↦ Wrote-last bounds e a id es w ps _ h same
        ]

  -- The loop writes all entries, behind those that the layout had.
  pub write_entries-Wrote :
      IsIndex index
      → (es : List E) (w : Writer) (ps : List (Part E)) (last : Option (Part E))
      → Writes codec index limit w ps last
      → w.next_id + length es < 2 ^ 64
      → Wrote es w.next_id (ps ++ optional_part last) (write_entries codec index limit es w)
  unfolding write_entries
  write_entries-Wrote bounds [] w ps last h room = record {
    writer = w;
    front_parts = ps;
    last_part = last;
    returned = refl;
    writes = h;
    next_id_le = omega arith;
    entries_same = sym (append-nil (entries_of (ps ++ optional_part last)));
  }
  write_entries-Wrote bounds (e ∷ es) w ps last h room =
      let one = write_entry-Wrote bounds e w ps last h (omega arith) in
      let next = one.next_id_le in
      let more =
        write_entries-Wrote bounds es one.writer one.front_parts one.last_part one.writes
          (omega arith) in
      let after = more.next_id_le in
      record {
        writer = more.writer;
        front_parts = more.front_parts;
        last_part = more.last_part;
        returned =
            ap (λ (m : Result WalError Writer). m >>= write_entries codec index limit es)
              one.returned
            ∙ more.returned;
        writes = more.writes;
        next_id_le = omega arith;
        entries_same =
            more.entries_same
            ∙ ap (λ (l : List E). l ++ es) one.entries_same
            ∙ append_assoc (entries_of (ps ++ optional_part last)) (e ∷ []) es;
      }
