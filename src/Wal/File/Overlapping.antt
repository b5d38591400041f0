-- ===== src/Wal/File/Overlapping.antt =====
-- An append that overwrites entries of the log.
use stellmap_service.Base.{
  ℕ, ◌+◌, ◌≤◌, ◌<◌, ◌≡◌, sym, ap, ap₂, ◌∙◌, subst, List, ◌∷◌, ◌++◌, append-nil, arith, ltb, leb,
  length, take, drop, length-append, select-append, length-select,
}
use stellmap_service.Wal.File.{Codec, Segment, Directory, FileWal}
use stellmap_service.Wal.File.Writer.{segment_at, rewrite_from, rewrite_tail}
use stellmap_service.Wal.File.Incremental.{HasRoom}
use stellmap_service.Wal.{merge_entries}
use stellmap_service.Wal.Merge.{Run, merge_entries-select}
use stellmap_service.Wal.File.Mirror.{entries_of, entries_of-append, segments_of, IsMirror}
use stellmap_service.Wal.File.Layouts.{IsIndex, All-weaken}
use stellmap_service.Wal.File.Splitting.{split, segment_at-Split, first_index_of, Run-bounds}
use stellmap_service.Wal.File.Rewriting.{
  under, from, under_all, under_none, rewritten_lem, Stored, middle_room, rewrite_from-Stored,
}

module _ {E : Type 0} (codec : Codec E) (index : E → ℕ) (limit : ℕ) (bounds : IsIndex index) where
  pub rewrite_tail-Stored :
      (n : ℕ) (x : E) (xs : List E) (w : FileWal E) (d : Directory) (m : IsMirror codec index w d)
      → Run index n w.entries
      → Run index (index x) (x ∷ xs)
      → n ≤ index x
      → index x < n + length w.entries
      → HasRoom (length w.entries + length (x ∷ xs)) w.segments
      → Stored codec index limit
          (merge_entries index w.entries (x ∷ xs))
          w
          (rewrite_tail codec index limit (index x) (merge_entries index w.entries (x ∷ xs)) w d)
  unfolding rewrite_tail
  rewrite_tail-Stored n x xs w d m r new low high (some_room, room) =
      let i = index x in
      let merged = merge_entries index w.entries (x ∷ xs) in
      let s = split index i n m.layout (rw m.entries_same at r) low (rw m.entries_same at high) in
      let first = first_index_of index s.middle in
      let bs = entries_of s.before in
      let qs = entries_of (s.middle ∷ s.after) in
      let entries : w.entries ≡ bs ++ qs =
        m.entries_same ∙ ap entries_of s.whole ∙ entries_of-append s.before (s.middle ∷ s.after) in
      let kept : under index first w.entries ≡ bs =
        ap (under index first) entries
        ∙ select-append (λ e. ltb (index e) first) bs qs
        ∙ ap₂ (λ (a b : List E). a ++ b) (under_all index first bs s.before_below)
            (under_none index first qs s.from_first)
        ∙ append-nil bs in
      let below : merged ≡ under index i (bs ++ qs) ++ x ∷ xs =
        merge_entries-select index n w.entries x xs r
        ∙ ap (λ (l : List E). under index i l ++ x ∷ xs) entries in
      let whole : bs ++ from index first merged ≡ merged =
        ap (λ (l : List E). bs ++ from index first l) below
        ∙ rewritten_lem index first i bs qs (x ∷ xs) s.before_below s.from_first
            (All-weaken _ _ (x ∷ xs) (λ e b. let f = s.first_le in omega arith)
              (Run-bounds index i (x ∷ xs) new))
            s.first_le
        ∙ sym below in
      let size : length merged ≤ length w.entries + length (x ∷ xs) = omega (
        arith,
        ap length below,
        length-append (under index i (bs ++ qs)) (x ∷ xs),
        length-select (λ (e : E). ltb (index e) i) (bs ++ qs),
        ap length entries,
      ) in
      let place =
        middle_room codec index limit (length w.entries + length (x ∷ xs)) s.before s.after s.middle
          (rw (m.segments_same ∙ ap (segments_of index) s.whole) at room) in
      let (t, r') = segment_at-Split index i n m.layout s in
      let cut =
        ap₂ (rewrite_from codec index limit merged w d)
          (ap (λ (l : List Segment). take (segment_at i l) l) m.segments_same ∙ t)
          (ap (λ (l : List Segment). drop (segment_at i l) l) m.segments_same ∙ r') in
      subst (Stored codec index limit merged w) (sym cut) (
        rewrite_from-Stored codec index limit bounds merged w d m s.before s.after s.middle s.whole
          kept whole
          (omega (arith, size, place, length-select (λ (e : E). leb first (index e)) merged)))
