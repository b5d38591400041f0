-- ===== src/Wal/File/Prefix.antt =====
-- `TruncatePrefix`, on each of its branches, and what a restart finds.
use stellmap_service.Base.{
  ℕ, ◌+◌, ◌≤◌, ◌≡◌, inl, inr, refl, sym, ap, ap₂, ◌∙◌, subst, Bool, true, List, [], ◌∷◌, ◌++◌,
  append-nil, arith, ltb, leb, if◌then◌else◌, Bool-cases, length, take, drop, Result, ok, err,
  ◌>>=◌,
}
use stellmap_service.Raftnode.Ready.{HardState}
use stellmap_service.Wal.{merge_entries}
use stellmap_service.Wal.Merge.{Run}
use stellmap_service.Wal.File.{
  not_open, WalError, Codec, Segment, Directory, FileWal, remove_segments,
}
use stellmap_service.Wal.File.Methods.{
  truncate_at, truncate_filtered, truncate_from, truncate_prefix, persist_state, load_state,
  decoded_state, new_file_wal, open_wal, load, append, with_state,
}
use stellmap_service.Wal.File.Writer.{segment_at}
use stellmap_service.Wal.File.Mirror.{Ordered, entries_of, files_of, IsMirror, open_wal-IsMirror}
use stellmap_service.Wal.File.Records.{IsLawful}
use stellmap_service.Wal.File.Layouts.{IsIndex, All-weaken}
use stellmap_service.Wal.File.Removing.{remove_segments_before}
use stellmap_service.Wal.File.Splitting.{Split, split, segment_at-Split, Run-bounds}
use stellmap_service.Wal.File.Incremental.{HasRoom}
use stellmap_service.Wal.File.Rewriting.{from, from_all, from_none, Stored}
use stellmap_service.Wal.File.Appending.{persisted-IsMirror, Stored-as, append-Stored}
use stellmap_service.Wal.File.Truncating.{from_last, from-Split, truncate_at-Stored}

module _ {E : Type 0} (codec : Codec E) (index : E → ℕ) (limit : ℕ) (bounds : IsIndex index)
    (lawful : IsLawful codec) where
  unchanged-Stored :
      (es : List E) (w : FileWal E) (d : Directory)
      → IsMirror codec index w d
      → w.entries ≡ es
      → Stored codec index limit es w (ok (w, persist_state codec w d))
  unchanged-Stored es w d m e = record {
    wal = w;
    directory = persist_state codec w d;
    returned = refl;
    mirror = persisted-IsMirror codec index limit bounds lawful w w d refl refl m;
    entries_same = e;
    state_same = refl;
    opened_same = refl;
  }

  emptied-Stored :
      (i : ℕ) (w : FileWal E) (d : Directory)
      → IsMirror codec index w d
      → Stored codec index limit [] w (truncate_at codec index i [] w d w.segments [])
  unfolding truncate_at persist_state load_state decoded_state
  emptied-Stored i w d m =
      let w' = record w { entries = []; segments = [] } in
      let removed =
        ap₂ remove_segments m.segments_same
          (m.files_same ∙ ap (files_of codec) (sym (append-nil m.layout)))
        ∙ remove_segments_before codec index m.layout []
            (subst Ordered (sym (append-nil m.layout)) m.ordered) in
      record {
        wal = w';
        directory =
            persist_state codec w'
              (record d { segment_files = remove_segments w.segments d.segment_files });
        returned = refl;
        mirror = record {
          layout = [];
          files_same = removed;
          segments_same = refl;
          entries_same = refl;
          ordered = tt;
          state_same = ap (decoded_state codec) (lawful.decode-encode_state w.state);
        };
        entries_same = refl;
        state_same = refl;
        opened_same = refl;
      }

  inside-Stored :
      (i n : ℕ) (w : FileWal E) (d : Directory) (m : IsMirror codec index w d)
      (s : Split index i n m.layout)
      → Stored codec index limit
          (from index i w.entries)
          w
          (truncate_filtered codec index limit i (from index i w.entries) w d)
  unfolding truncate_filtered
  inside-Stored i n w d m s =
      let (id, a, as') = s.middle in
      let (f, gs, c, l) = from_last index i a as' s.from_last.0 in
      let left : from index i w.entries ≡ f ∷ (gs ++ entries_of s.after) =
        ap (from index i) m.entries_same
        ∙ from-Split index i n m.layout s
        ∙ ap (λ (k : List E). k ++ entries_of s.after) c in
      let (t, r) = segment_at-Split index i n m.layout s in
      let filtered : List E = f ∷ (gs ++ entries_of s.after) in
      let cut =
        ap₂ (truncate_at codec index i filtered w d)
          (ap (λ (k : List Segment). take (segment_at i k) k) m.segments_same ∙ t)
          (ap (λ (k : List Segment). drop (segment_at i k) k) m.segments_same ∙ r) in
      Stored-as codec index limit bounds (from index i w.entries) (from index i w.entries) w _ _
        refl (ap (λ (k : List E). truncate_filtered codec index limit i k w d) left ∙ cut)
        (truncate_at-Stored codec index limit bounds lawful i n w d m s filtered (sym left))

  truncate_from-Stored :
      (i n : ℕ) (es : List E) (w : FileWal E) (d : Directory)
      → IsMirror codec index w d
      → w.entries ≡ es
      → Run index n es
      → Stored codec index limit
          (from index i w.entries)
          w
          (truncate_from codec index limit i es w d)
  unfolding truncate_from
  truncate_from-Stored i n [] w d m e r =
      unchanged-Stored (from index i w.entries) w d m (e ∙ sym (ap (from index i) e))
  truncate_from-Stored i n (x ∷ xs) w d m e r = elim (Bool-cases (leb i (index x))) [
    | inl old ↦
        let first : index x ≡ n = r.0 in
        let all =
          from_all index i (x ∷ xs)
            (All-weaken _ _ (x ∷ xs) (λ y b. ground arith) (Run-bounds index n (x ∷ xs) r)) in
        rw old
          (unchanged-Stored (from index i w.entries) w d m (e ∙ sym (ap (from index i) e ∙ all)))
    | inr new ↦
        let kept = from index i w.entries in
        let rest = λ (l : List E). truncate_filtered codec index limit i l w d in
        let all = truncate_from codec index limit i (x ∷ xs) w d in
        let step : all ≡ rest (from index i (x ∷ xs)) = rw new refl in
        let whole : x ∷ xs ≡ entries_of m.layout = sym e ∙ m.entries_same in
        let bound = ap length whole in
        let first : index x ≡ n = r.0 in
        elim (Bool-cases (ltb i (n + length (x ∷ xs)))) [
          | inl inside ↦
              Stored-as codec index limit bounds kept kept w (rest kept) all refl
                (step ∙ ap rest (ap (from index i) (sym e)))
                (inside-Stored i n w d m (
                  split index i n m.layout (subst (Run index n) whole r) (ground arith)
                    (ground arith)))
          | inr outside ↦
              let none_left : from index i (x ∷ xs) ≡ [] =
                from_none index i (x ∷ xs)
                  (All-weaken _ _ (x ∷ xs) (λ y b. ground arith) (Run-bounds index n (x ∷ xs) r)) in
              Stored-as codec index limit bounds [] kept w (rest []) all
                (sym (ap (from index i) e ∙ none_left)) (step ∙ ap rest none_left)
                (emptied-Stored i w d m)
        ]
  ]

  -- A truncation of an open log of consecutive entries succeeds: the log in memory is still the one on
  -- the disk, and its entries are those from the index on.
  truncate_prefix-Stored :
      (i n : ℕ) (w : FileWal E) (d : Directory)
      → IsMirror codec index w d
      → w.opened ≡ true
      → Run index n w.entries
      → Stored codec index limit
          (from index i w.entries)
          w
          (truncate_prefix codec index limit w i d)
  unfolding truncate_prefix
  truncate_prefix-Stored i n w d m opened r =
      let run = truncate_from codec index limit i w.entries w d in
      Stored-as codec index limit bounds (from index i w.entries) (from index i w.entries) w run
        (truncate_prefix codec index limit w i d) refl
        (ap (λ (b : Bool). if b then run else err not_open) opened)
        (truncate_from-Stored i n w.entries w d m refl r)

  -- What an operation has stored, a restart finds.
  Stored-load :
      (es : List E) (w : FileWal E) (r : Result WalError (FileWal E × Directory))
      → Stored codec index limit es w r
      → (r >>= (λ v. open_wal codec index new_file_wal v.1 >>= load)) ≡ ok (w.state, es)
  unfolding load
  Stored-load es w r s =
      ap
        (λ (q : Result WalError (FileWal E × Directory)).
          q >>= (λ v. open_wal codec index new_file_wal v.1 >>= load))
        s.returned
      ∙ ap (λ (q : Result WalError (FileWal E)). q >>= load)
          (open_wal-IsMirror codec index s.wal s.directory lawful s.mirror)
      ∙ ap₂ (λ (a : HardState) (b : List E). ok (a, b)) s.state_same s.entries_same

  -- Of an open log that is the one on its disk and has consecutive entries: a restart behind an
  -- append of consecutive entries, which begin inside the log or right behind it, loads the new
  -- hard state, or the old one where the new one is empty, and the entries that the log in memory
  -- alone would hold, where the segments do not run out of numbers.
  pub append-load :
      (n : ℕ) (x : E) (xs : List E) (state : HardState) (w : FileWal E) (d : Directory)
      → IsMirror codec index w d
      → w.opened ≡ true
      → Run index n w.entries
      → Run index (index x) (x ∷ xs)
      → n ≤ index x
      → index x ≤ n + length w.entries
      → HasRoom (length w.entries + length (x ∷ xs)) w.segments
      → (append codec index limit w state (x ∷ xs) d
          >>= (λ v. open_wal codec index new_file_wal v.1 >>= load))
        ≡ ok ((with_state state w).state, merge_entries index w.entries (x ∷ xs))
  append-load n x xs state w d m o r new low high room =
      Stored-load _ _ _
        (append-Stored codec index limit bounds lawful n x xs state w d m o r new low high room)

  -- Of an open log that is the one on its disk and has consecutive entries: a restart behind a
  -- truncation loads the hard state and the entries from the index on.
  pub truncate_prefix-load :
      (i n : ℕ) (w : FileWal E) (d : Directory)
      → IsMirror codec index w d
      → w.opened ≡ true
      → Run index n w.entries
      → (truncate_prefix codec index limit w i d
          >>= (λ v. open_wal codec index new_file_wal v.1 >>= load))
        ≡ ok (w.state, from index i w.entries)
  truncate_prefix-load i n w d m o r = Stored-load _ _ _ (truncate_prefix-Stored i n w d m o r)
