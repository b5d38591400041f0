-- ===== src/Wal/File/Rewriting.antt =====
-- `rewriteTail` on a log that is the one on the disk.
use stellmap_service.Base.{
  ℕ, ◌+◌, ◌^◌, ◌≤◌, ◌<◌, ◌≡◌, inl, inr, refl, sym, ap, ap₂, ◌∙◌, subst, Bool, true, false, List, [],
  ◌∷◌, ◌++◌, append_assoc, arith, ltb, leb, Bool-cases, length, select, All, select-append, Result,
  ok, ◌>>=◌,
}
use stellmap_service.Wal.File.{WalError, Codec, Directory, FileWal, remove_segments}
use stellmap_service.Wal.File.Methods.{load_state}
use stellmap_service.Wal.File.Writer.{rewrite_from}
use stellmap_service.Wal.File.Mirror.{Part, entries_of, Ordered, segments_of, files_of, IsMirror}
use stellmap_service.Wal.File.Layouts.{IsIndex, All-weaken}
use stellmap_service.Wal.File.Removing.{Ordered-split, remove_segments_behind}
use stellmap_service.Wal.File.Splitting.{first_index_of}
use stellmap_service.Wal.File.Incremental.{Extended-new}

select_all : {A : Type 0} (p : A → Bool) (xs : List A) → All (λ x. p x ≡ true) xs → select p xs ≡ xs
select_all p [] h = refl
select_all p (x ∷ xs) (h, hs) = rw h (ap (◌∷◌ x) (select_all p xs hs))

select_none :
    {A : Type 0} (p : A → Bool) (xs : List A) → All (λ x. p x ≡ false) xs → select p xs ≡ []
select_none p [] h = refl
select_none p (x ∷ xs) (h, hs) = rw h (select_none p xs hs)

All-select :
    {A : Type 0} (P : A → Type 0) (p : A → Bool) (xs : List A) → All P xs → All P (select p xs)
All-select P p [] h = tt
All-select P p (x ∷ xs) (h, hs) = elim (Bool-cases (p x)) [
  | inl e ↦ rw e (h, All-select P p xs hs)
  | inr e ↦ rw e (All-select P p xs hs)
]

module _ {E : Type 0} (index : E → ℕ) where
  abbrev pub under : ℕ → List E → List E
  under i es = select (λ e. ltb (index e) i) es

  abbrev pub from : ℕ → List E → List E
  from i es = select (λ e. leb i (index e)) es

  pub under_all : (i : ℕ) (es : List E) → All (λ e. index e < i) es → under i es ≡ es
  under_all i es h = select_all _ es (All-weaken _ _ es (λ e b. ground arith) h)

  pub under_none : (i : ℕ) (es : List E) → All (λ e. i ≤ index e) es → under i es ≡ []
  under_none i es h = select_none _ es (All-weaken _ _ es (λ e b. ground arith) h)

  pub from_all : (i : ℕ) (es : List E) → All (λ e. i ≤ index e) es → from i es ≡ es
  from_all i es h = select_all _ es (All-weaken _ _ es (λ e b. ground arith) h)

  pub from_none : (i : ℕ) (es : List E) → All (λ e. index e < i) es → from i es ≡ []
  from_none i es h = select_none _ es (All-weaken _ _ es (λ e b. ground arith) h)

  -- What is kept and what is written again make up the merged log.
  pub rewritten_lem :
      (first i : ℕ) (bs qs ys : List E)
      → All (λ e. index e < first) bs
      → All (λ e. first ≤ index e) qs
      → All (λ e. first ≤ index e) ys
      → first ≤ i
      → bs ++ from first (under i (bs ++ qs) ++ ys) ≡ under i (bs ++ qs) ++ ys
  rewritten_lem first i bs qs ys b q y h =
      let u : under i (bs ++ qs) ≡ bs ++ under i qs =
        select-append (λ e. ltb (index e) i) bs qs
        ∙ ap (λ (l : List E). l ++ under i qs)
            (under_all i bs (All-weaken _ _ bs (λ e k. omega arith) b)) in
      let f : from first ((bs ++ under i qs) ++ ys) ≡ under i qs ++ ys =
        select-append (λ e. leb first (index e)) (bs ++ under i qs) ys
        ∙ ap₂ (λ (l m : List E). l ++ m)
            (select-append (λ e. leb first (index e)) bs (under i qs)
              ∙ ap₂ (λ (l m : List E). l ++ m) (from_none first bs b)
                  (from_all first (under i qs) (All-select _ _ qs q)))
            (from_all first ys y) in
      ap (λ (l : List E). bs ++ from first (l ++ ys)) u
      ∙ ap (λ (l : List E). bs ++ l) f
      ∙ sym (append_assoc bs (under i qs) ys)
      ∙ ap (λ (l : List E). l ++ ys) (sym u)

module _ {E : Type 0} (codec : Codec E) (index : E → ℕ) (limit : ℕ) where
  -- What an operation gives that leaves the hard state alone.
  pub record Stored (es : List E) (w : FileWal E) (r : Result WalError (FileWal E × Directory))
      : Type 0 where
    pub wal : FileWal E
    pub directory : Directory
    pub returned : r ≡ ok (wal, directory)
    pub mirror : IsMirror codec index wal directory
    pub entries_same : wal.entries ≡ es
    pub state_same : wal.state ≡ w.state
    pub opened_same : wal.opened ≡ w.opened

  pub middle_room :
      (k : ℕ) (ps qs : List (Part E)) (p : Part E)
      → All (λ s. s.id + k + 1 < 2 ^ 64) (segments_of index (ps ++ p ∷ qs))
      → p.0 + k + 1 < 2 ^ 64
  middle_room k [] qs p (h, hs) = h
  middle_room k (q ∷ ps) qs p (h, hs) = middle_room k ps qs p hs

  pub rewrite_from-Stored :
      IsIndex index
      → (merged : List E) (w : FileWal E) (d : Directory) (m : IsMirror codec index w d)
        (ps qs : List (Part E)) (p : Part E)
      → m.layout ≡ ps ++ p ∷ qs
      → under index (first_index_of index p) w.entries ≡ entries_of ps
      → entries_of ps ++ from index (first_index_of index p) merged ≡ merged
      → p.0 + length (from index (first_index_of index p) merged) < 2 ^ 64
      → Stored merged w (
          rewrite_from codec index limit merged w d
            (segments_of index ps)
            (segments_of index (p ∷ qs)))
  unfolding rewrite_from
  rewrite_from-Stored bounds merged w d m ps qs p e kept whole room =
      let o : Ordered (ps ++ p ∷ qs) = subst Ordered e m.ordered in
      let (x, y, z, u) = Ordered-split ps (p ∷ qs) o in
      let rewritten = from index (first_index_of index p) merged in
      let w1 = record w {
        segments = segments_of index ps;
        entries = under index (first_index_of index p) w.entries;
      } in
      let d1 = record d {
        segment_files = remove_segments (segments_of index (p ∷ qs)) d.segment_files;
      } in
      let removed =
        ap (remove_segments (segments_of index (p ∷ qs))) (m.files_same ∙ ap (files_of codec) e)
        ∙ remove_segments_behind codec index ps (p ∷ qs) o in
      let out =
        Extended-new codec index limit bounds rewritten p.0 w1 d1 ps refl removed x u.0 room in
      record {
        wal = record out.wal { entries = out.wal.entries ++ rewritten };
        directory = out.directory;
        returned =
            ap
              (λ (r : Result WalError (FileWal E × Directory)). r >>= λ (v : FileWal E × Directory).
                ok (record v.0 { entries = v.0.entries ++ rewritten }, v.1))
              out.returned;
        mirror = record {
          layout = out.layout;
          files_same = out.files_same;
          segments_same = out.segments_same;
          entries_same =
              ap (λ (l : List E). l ++ rewritten) (out.entries_kept ∙ kept)
              ∙ sym out.layout_entries;
          ordered = out.ordered;
          state_same =
              ap (load_state codec) out.hard_state_kept ∙ m.state_same ∙ ap ok (sym out.state_kept);
        };
        entries_same = ap (λ (l : List E). l ++ rewritten) (out.entries_kept ∙ kept) ∙ whole;
        state_same = out.state_kept;
        opened_same = out.opened_kept;
      }
