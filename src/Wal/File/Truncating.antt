-- ===== src/Wal/File/Truncating.antt =====
-- `TruncatePrefix` on a log that is the one on the disk.
use stellmap_service.Base.{
  ℕ, ◌≤◌, ◌<◌, ◌≡◌, inl, inr, refl, ap, ◌∙◌, subst, true, false, List, [], ◌∷◌, ◌++◌, Option, arith,
  ltb, leb, ==_refl, Bool-cases, All, select-append, Result, ok, ◌>>=◌,
}
use stellmap_service.Wal.File.{
  WalError, Segment, SegmentFiles, Directory, FileWal, put_file, remove_segments, Codec, Bytes,
}
use stellmap_service.Wal.File.Methods.{
  records_of, segment_of, boundary_entries, rewrite_boundary, cut_boundary, truncate_at,
  persist_state, load_state, decoded_state,
}
use stellmap_service.Wal.File.Mirror.{
  Ordered, segment_for, segments_of, files_of, IsMirror, segment_of_lem, Part, part_entries,
  last_of, entries_of, entries_of-append,
}
use stellmap_service.Wal.File.Records.{IsLawful}
use stellmap_service.Wal.File.Layouts.{IsIndex, All-split, All-weaken}
use stellmap_service.Wal.File.Removing.{Ordered-split, remove_segments_before}
use stellmap_service.Wal.File.Splitting.{Split}
use stellmap_service.Wal.File.Rewriting.{Stored, from, from_all, from_none}

module _ {E : Type 0} (index : E → ℕ) where
  -- What is left of a segment whose last entry stays.
  pub from_last :
      (i : ℕ) (e : E) (es : List E)
      → i ≤ index (last_of e es)
      → (f : E) × (fs : List E) × (from index i (e ∷ es) ≡ f ∷ fs) × (last_of f fs ≡ last_of e es)
  from_last i e [] h = let t : leb i (index e) ≡ true = ground arith in (e, [], rw t refl, refl)
  from_last i e (y ∷ ys) h =
      let (f, fs, c, l) = from_last i y ys h in
      elim (Bool-cases (leb i (index e))) [
        | inl t ↦ (e, f ∷ fs, rw t (ap (◌∷◌ e) c), l)
        | inr t ↦ (f, fs, rw t c, l)
      ]

  -- What a truncation leaves, by segments.
  pub from-Split :
      (i n : ℕ) (ps : List (Part E)) (s : Split index i n ps)
      → from index i (entries_of ps) ≡ from index i (part_entries s.middle) ++ entries_of s.after
  from-Split i n ps s =
      let bs = entries_of s.before in
      let ms = part_entries s.middle in
      let le = s.first_le in
      ap (from index i) (ap entries_of s.whole ∙ entries_of-append s.before (s.middle ∷ s.after))
      ∙ select-append (λ e. leb i (index e)) bs (ms ++ entries_of s.after)
      ∙ ap (λ (l : List E). l ++ from index i (ms ++ entries_of s.after))
          (from_none index i bs (All-weaken _ _ bs (λ e b. omega arith) s.before_below))
      ∙ select-append (λ e. leb i (index e)) ms (entries_of s.after)
      ∙ ap (λ (l : List E). from index i ms ++ l)
          (from_all index i (entries_of s.after) s.after_above)

module _ {E : Type 0} (codec : Codec E) (index : E → ℕ) where
  boundary_entries_stop :
      (low high : ℕ) (es : List E)
      → low ≤ high
      → All (λ e. high < index e) es
      → boundary_entries codec index low high es ≡ []
  unfolding boundary_entries
  boundary_entries_stop low high [] le h = refl
  boundary_entries_stop low high (e ∷ es) le (h, hs) =
      let a : ltb (index e) low ≡ false = ground arith in
      let b : ltb high (index e) ≡ true = ground arith in rw (a, b) refl

  boundary_entries_lem :
      (low high : ℕ) (ms as' : List E)
      → low ≤ high
      → All (λ e. index e ≤ high) ms
      → All (λ e. high < index e) as'
      → boundary_entries codec index low high (from index low ms ++ as') ≡ from index low ms
  unfolding boundary_entries
  boundary_entries_lem low high [] as' le m a = boundary_entries_stop low high as' le a
  boundary_entries_lem low high (e ∷ ms) as' le (h, m) a =
      let ih = boundary_entries_lem low high ms as' le m a in
      elim (Bool-cases (leb low (index e))) [
        | inl t ↦
            let x : ltb (index e) low ≡ false = ground arith in
            let y : ltb high (index e) ≡ false = ground arith in
            rw (t, boundary_entries, x, y) (ap (◌∷◌ e) ih)
        | inr t ↦ rw t ih
      ]

  put_first :
      (id : ℕ) (bs cs : Bytes) (fs : SegmentFiles) → put_file id bs ((id, cs) ∷ fs) ≡ (id, bs) ∷ fs
  unfolding put_file
  put_first id bs cs fs = rw (==_refl id) refl

  -- What is left of the segment at the boundary.
  cut_boundary_lem :
      (i id : ℕ) (e : E) (es : List E) (as' : List (Part E)) (filtered : List E) (fs : SegmentFiles)
      → filtered ≡ from index i (e ∷ es) ++ entries_of as'
      → fs ≡ files_of codec ((id, e, es) ∷ as')
      → i ≤ index (last_of e es)
      → All (λ x. index e ≤ index x) (e ∷ es)
      → All (λ x. index x ≤ index (last_of e es)) (e ∷ es)
      → All (λ x. index (last_of e es) < index x) (entries_of as')
      → (f : E) × (gs : List E) × (from index i (e ∷ es) ≡ f ∷ gs)
        × (cut_boundary codec index i filtered (segment_for index (id, e, es)) fs
            ≡ ok (segment_for index (id, f, gs), files_of codec ((id, f, gs) ∷ as')))
  unfolding cut_boundary rewrite_boundary
  cut_boundary_lem i id e es as' filtered fs same files le firsts lasts behind =
      let (f, gs, c, l) = from_last index i e es le in
      elim (Bool-cases (ltb (index e) i)) [
        | inr whole ↦
            let all =
              from_all index i (e ∷ es) (All-weaken _ _ (e ∷ es) (λ x b. ground arith) firsts) in
            (
              e,
              es,
              all,
              rw (cut_boundary, whole)
                  (ap (λ (b : SegmentFiles). ok (segment_for index (id, e, es), b)) files),
            )
        | inl cut ↦
            let left =
              ap (boundary_entries codec index i (index (last_of e es))) same
              ∙ boundary_entries_lem i (index (last_of e es)) (e ∷ es) (entries_of as') le lasts
                  behind
              ∙ c in
            (
              f,
              gs,
              c,
              rw (cut_boundary, cut)
                  (ap
                      (λ (l : List E).
                        rewrite_boundary codec index (segment_for index (id, e, es)) l
                          (segment_of codec index id l) fs)
                      left
                    ∙ ap
                        (λ (o : Option Segment).
                          rewrite_boundary codec index (segment_for index (id, e, es)) (f ∷ gs) o
                            fs)
                        (segment_of_lem codec index id f gs)
                    ∙ ap (λ (b : SegmentFiles). ok (segment_for index (id, f, gs), b))
                        (ap (put_file id (records_of codec (f ∷ gs))) files
                          ∙ put_first id (records_of codec (f ∷ gs)) (records_of codec (e ∷ es))
                              (files_of codec as'))),
            )
      ]

module _ {E : Type 0} (codec : Codec E) (index : E → ℕ) (limit : ℕ) (bounds : IsIndex index)
    (lawful : IsLawful codec) where
  pub truncate_at-Stored :
      (i n : ℕ) (w : FileWal E) (d : Directory) (m : IsMirror codec index w d)
      (s : Split index i n m.layout) (filtered : List E)
      → filtered ≡ from index i w.entries
      → Stored codec index limit (from index i w.entries) w (
          truncate_at codec index i filtered w d
            (segments_of index s.before)
            (segments_of index (s.middle ∷ s.after)))
  unfolding truncate_at persist_state load_state decoded_state
  truncate_at-Stored i n w d m s filtered e =
      let (id, a, as') = s.middle in
      let left = ap (from index i) m.entries_same ∙ from-Split index i n m.layout s in
      let o : Ordered (s.before ++ s.middle ∷ s.after) = subst Ordered s.whole m.ordered in
      let (x, y, z, u) = Ordered-split s.before (s.middle ∷ s.after) o in
      let files =
        ap (remove_segments (segments_of index s.before))
          (m.files_same ∙ ap (files_of codec) s.whole)
        ∙ remove_segments_before codec index s.before (s.middle ∷ s.after) o in
      let (firsts, rest) =
        All-split (λ e. index a ≤ index e) (a ∷ as') (entries_of s.after) s.from_first in
      let (f, gs, c, cut) =
        cut_boundary_lem codec index i id a as' s.after filtered _ (e ∙ left) files s.from_last.0
          firsts s.middle_last s.after_behind in
      let wal = record w {
        entries = filtered;
        segments = segments_of index ((id, f, gs) ∷ s.after);
      } in
      record {
        wal = wal;
        directory =
            persist_state codec wal
              (record d { segment_files = files_of codec ((id, f, gs) ∷ s.after) });
        returned =
            ap
              (λ (r : Result WalError (Segment × SegmentFiles)).
                r >>= λ (v : Segment × SegmentFiles).
                let w' = record w {
                  entries = filtered;
                  segments = v.0 ∷ segments_of index s.after;
                } in
                ok (w', persist_state codec w' (record d { segment_files = v.1 })))
              cut;
        mirror = record {
          layout = (id, f, gs) ∷ s.after;
          files_same = refl;
          segments_same = refl;
          entries_same = e ∙ left ∙ ap (λ (l : List E). l ++ entries_of s.after) c;
          ordered = y;
          state_same = ap (decoded_state codec) (lawful.decode-encode_state w.state);
        };
        entries_same = e;
        state_same = refl;
        opened_same = refl;
      }
