-- ===== src/Wal/File/Appending.antt =====
-- `Append` on a log that is the one on the disk.
use stellmap_service.Base.{
  ℕ, suc, ◌+◌, ◌%◌, ◌^◌, ◌≤◌, ◌≡◌, inl, inr, refl, sym, ap, ◌∙◌, subst, true, false, List, [], ◌∷◌,
  ◌++◌, Option, none, some, arith, ltb, ◌==◌, Bool-cases, Option-cases, length, get_last?, Result,
  ok, ◌>>=◌,
}
use stellmap_service.Wal.File.{is_empty_hard_state, WalError, Codec, Segment, Directory, FileWal}
use stellmap_service.Wal.File.Methods.{
  load_state, decoded_state, persist_state, append_behind, append_after, append_entries, append,
  with_state,
}
use stellmap_service.Raftnode.Ready.{HardState}
use stellmap_service.Wal.File.Records.{IsLawful}
use stellmap_service.Wal.File.Incremental.{HasRoom, Extended-behind}
use stellmap_service.Wal.{merge_entries}
use stellmap_service.Wal.Merge.{Run, merge_entries-select}
use stellmap_service.Wal.File.Mirror.{IsMirror}
use stellmap_service.Wal.File.Layouts.{IsIndex, All-weaken}
use stellmap_service.Wal.File.Splitting.{Run-bounds}
use stellmap_service.Wal.File.Rewriting.{under_all, Stored}
use stellmap_service.Wal.File.Overlapping.{rewrite_tail-Stored}

module _ {E : Type 0} (index : E → ℕ) where
  get_last?-Run :
      (n : ℕ) (es : List E) (l : E)
      → Run index n es
      → get_last? es ≡ some l
      → index l + 1 ≡ n + length es
  get_last?-Run n [] l r h = absurd cc
  get_last?-Run n (e ∷ []) l (x, r) h = let q : e ≡ l = cc in rw (← q) (omega arith)
  get_last?-Run n (e ∷ f ∷ es) l (x, r) h = get_last?-Run (suc n) (f ∷ es) l r h ∙ omega arith

  get_last?-none : (es : List E) → get_last? es ≡ none → es ≡ []
  get_last?-none [] h = refl
  get_last?-none (e ∷ []) h = absurd cc
  get_last?-none (e ∷ f ∷ es) h = absurd (let q = get_last?-none (f ∷ es) h in cc)

module _ {E : Type 0} (codec : Codec E) (index : E → ℕ) (limit : ℕ) (bounds : IsIndex index) where
  append_behind-Stored :
      (es : List E) (w : FileWal E) (d : Directory) (m : IsMirror codec index w d)
      → HasRoom (length es) w.segments
      → Stored codec index limit (w.entries ++ es) w (append_behind codec index limit es w d)
  unfolding append_behind
  append_behind-Stored es w d m room =
      let out = Extended-behind codec index limit bounds es w d m room in
      let grown : out.wal.entries ++ es ≡ w.entries ++ es =
        ap (λ (l : List E). l ++ es) out.entries_kept in
      record {
        wal = record out.wal { entries = out.wal.entries ++ es };
        directory = out.directory;
        returned =
            ap
              (λ (r : Result WalError (FileWal E × Directory)). r >>= λ (v : FileWal E × Directory).
                ok (record v.0 { entries = v.0.entries ++ es }, v.1))
              out.returned;
        mirror = record {
          layout = out.layout;
          files_same = out.files_same;
          segments_same = out.segments_same;
          entries_same =
              grown ∙ ap (λ (l : List E). l ++ es) m.entries_same ∙ sym out.layout_entries;
          ordered = out.ordered;
          state_same =
              ap (load_state codec) out.hard_state_kept ∙ m.state_same ∙ ap ok (sym out.state_kept);
        };
        entries_same = grown;
        state_same = out.state_kept;
        opened_same = out.opened_kept;
      }

  HasRoom-less :
      (j k : ℕ) (segments : List Segment) → j ≤ k → HasRoom k segments → HasRoom j segments
  HasRoom-less j k segments h (some_room, room) =
      (omega arith, All-weaken _ _ segments (λ s b. omega arith) room)

  pub Stored-as :
      (es fs : List E) (w : FileWal E) (r q : Result WalError (FileWal E × Directory))
      → es ≡ fs
      → q ≡ r
      → Stored codec index limit es w r
      → Stored codec index limit fs w q
  Stored-as es fs w r q e f h =
      subst (λ (l : List E). Stored codec index limit l w q) e
        (subst (Stored codec index limit es w) (sym f) h)

  merge_entries_behind :
      (n : ℕ) (x : E) (xs es : List E)
      → Run index n es
      → index x ≡ n + length es
      → es ++ x ∷ xs ≡ merge_entries index es (x ∷ xs)
  merge_entries_behind n x xs es r e = sym (
      merge_entries-select index n es x xs r
      ∙ ap (λ (l : List E). l ++ x ∷ xs)
          (under_all index (index x) es
            (All-weaken _ _ es (λ y b. omega (arith, e)) (Run-bounds index n es r))))

  append_entries-Stored :
      (n : ℕ) (x : E) (xs : List E) (w : FileWal E) (d : Directory) (m : IsMirror codec index w d)
      → Run index n w.entries
      → Run index (index x) (x ∷ xs)
      → n ≤ index x
      → index x ≤ n + length w.entries
      → HasRoom (length w.entries + length (x ∷ xs)) w.segments
      → Stored codec index limit
          (merge_entries index w.entries (x ∷ xs))
          w
          (append_entries codec index limit (x ∷ xs) w d)
  unfolding append_entries append_after
  append_entries-Stored n x xs w d m r new low high room =
      let few =
        HasRoom-less (length (x ∷ xs)) (length w.entries + length (x ∷ xs)) w.segments (omega arith)
          room in
      let merged = merge_entries index w.entries (x ∷ xs) in
      let after = λ (o : Option E). append_after codec index limit o x xs w d in
      let behind = append_behind-Stored (x ∷ xs) w d m few in
      elim (Option-cases (get_last? w.entries)) [
        | inl e ↦
            let none_there = ap length (get_last?-none index w.entries e) in
            Stored-as (w.entries ++ x ∷ xs) merged w _
              (append_entries codec index limit (x ∷ xs) w d)
              (merge_entries_behind n x xs w.entries r (omega (arith, none_there))) (ap after e)
              behind
        | inr (l, e) ↦
            let last = get_last?-Run index n w.entries l r e in
            let small = bounds.small l in
            let next : (index l + 1) % 2 ^ 64 ≡ n + length w.entries = omega arith in
            elim (Bool-cases (index x == n + length w.entries)) [
              | inl follows ↦
                  Stored-as (w.entries ++ x ∷ xs) merged w _
                    (append_entries codec index limit (x ∷ xs) w d)
                    (merge_entries_behind n x xs w.entries r (ground arith))
                    (ap after e ∙ rw (append_after, next, follows) refl) behind
              | inr overlaps ↦
                  let no_gap : ltb (n + length w.entries) (index x) ≡ false = ground arith in
                  Stored-as merged merged w _ (append_entries codec index limit (x ∷ xs) w d) refl
                    (ap after e ∙ rw (append_after, next, overlaps, no_gap) refl)
                    (rewrite_tail-Stored codec index limit bounds n x xs w d m r new low
                      (ground arith) room)
            ]
      ]

  with_state_kept :
      (state : HardState) (w : FileWal E)
      → ((with_state state w).segments ≡ w.segments)
        × ((with_state state w).entries ≡ w.entries)
        × ((with_state state w).opened ≡ w.opened)
  unfolding with_state
  with_state_kept state w = elim (Bool-cases (is_empty_hard_state state)) [
    | inl e ↦ rw (with_state, e) (refl, refl, refl)
    | inr e ↦ rw (with_state, e) (refl, refl, refl)
  ]

  -- The hard state is written; segments and entries are as before.
  pub persisted-IsMirror :
      IsLawful codec
      → (v w : FileWal E) (d : Directory) → v.segments ≡ w.segments
      → v.entries ≡ w.entries
      → IsMirror codec index w d
      → IsMirror codec index v (persist_state codec v d)
  unfolding persist_state load_state decoded_state
  persisted-IsMirror lawful v w d s e m = record {
    layout = m.layout;
    files_same = m.files_same;
    segments_same = s ∙ m.segments_same;
    entries_same = e ∙ m.entries_same;
    ordered = m.ordered;
    state_same = ap (decoded_state codec) (lawful.decode-encode_state v.state);
  }

  -- An append of consecutive entries that begin inside the log or right behind it succeeds, where the
  -- segments do not run out of numbers: the log in memory is still the one on the disk, its entries
  -- are those that the log in memory alone would hold, and its hard state is the new one, or the old
  -- one where the new one is empty.
  pub append-Stored :
      IsLawful codec
      → (n : ℕ) (x : E) (xs : List E) (state : HardState) (w : FileWal E) (d : Directory)
      → IsMirror codec index w d
      → w.opened ≡ true
      → Run index n w.entries
      → Run index (index x) (x ∷ xs)
      → n ≤ index x
      → index x ≤ n + length w.entries
      → HasRoom (length w.entries + length (x ∷ xs)) w.segments
      → Stored codec index limit
          (merge_entries index w.entries (x ∷ xs))
          (with_state state w)
          (append codec index limit w state (x ∷ xs) d)
  unfolding append
  append-Stored lawful n x xs state w d m opened r new low high room =
      let v = with_state state w in
      let (segs, es, o) = with_state_kept state w in
      let m' = persisted-IsMirror lawful v w d segs es m in
      Stored-as (merge_entries index v.entries (x ∷ xs)) (merge_entries index w.entries (x ∷ xs)) v
        (append_entries codec index limit (x ∷ xs) v (persist_state codec v d))
        (append codec index limit w state (x ∷ xs) d)
        (ap (λ (l : List E). merge_entries index l (x ∷ xs)) es) (rw (append, opened) refl)
        (append_entries-Stored n x xs v (persist_state codec v d) m' (rw es r) new low (rw es high)
          (rw (segs, es) room))
