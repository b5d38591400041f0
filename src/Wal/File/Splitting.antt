-- ===== src/Wal/File/Splitting.antt =====
-- The segment at which `sort.Search` on the last indexes stops.
use stellmap_service.Base.{
  ℕ, zero, suc, ◌+◌, ◌≤◌, ◌<◌, ◌≡◌, inl, inr, refl, sym, ap, ap₂, ◌∙◌, subst, List, [], ◌∷◌, ◌++◌,
  arith, ltb, leb, Bool-cases, length, take, drop, All, length-append, All-append,
}
use mathlib.Core.List.{map-append}
use stellmap_service.Wal.Search.{search_lem}
use stellmap_service.Wal.Merge.{Run}
use stellmap_service.Wal.File.{Segment}
use stellmap_service.Wal.File.Writer.{ends_at, segment_at}
use stellmap_service.Wal.File.Mirror.{
  Part, last_of, entries_of, segment_for, segments_of, part_entries,
}
use stellmap_service.Wal.File.Records.{take-append, drop-append}
use stellmap_service.Wal.File.Layouts.{All-weaken}

module _ {E : Type 0} (index : E → ℕ) where
  abbrev last_index_of : Part E → ℕ
  last_index_of (id, e, es) = index (last_of e es)

  abbrev pub first_index_of : Part E → ℕ
  first_index_of (id, e, es) = index e

  Run-split :
      (n : ℕ) (xs ys : List E)
      → Run index n (xs ++ ys)
      → Run index n xs × Run index (n + length xs) ys
  Run-split n [] ys r = (tt, subst (λ k. Run index k ys) (omega arith) r)
  Run-split n (x ∷ xs) ys (e, r) =
      let (a, b) = Run-split (suc n) xs ys r in
      ((e, a), subst (λ k. Run index k ys) (omega arith) b)

  pub Run-bounds :
      (n : ℕ) (xs : List E)
      → Run index n xs
      → All (λ e. (n ≤ index e) × (index e < n + length xs)) xs
  Run-bounds n [] r = tt
  Run-bounds n (x ∷ xs) (e, r) =
      (omega arith, All-weaken _ _ xs (λ y b. (omega arith, omega arith)) (Run-bounds (suc n) xs r))

  last_of-Run :
      (n : ℕ) (e : E) (es : List E) → Run index n (e ∷ es) → index (last_of e es) ≡ n + length es
  last_of-Run n e [] (x, r) = omega arith
  last_of-Run n e (y ∷ es) (x, r) = last_of-Run (suc n) y es r ∙ omega arith

  -- The parts whose last index is below `i`, the next one, and the others.
  pub record Split (i n : ℕ) (ps : List (Part E)) : Type 0 where
    pub before : List (Part E)
    pub middle : Part E
    pub after : List (Part E)
    pub whole : ps ≡ before ++ middle ∷ after
    pub before_last : All (λ p. last_index_of p < i) before
    pub from_last : All (λ p. i ≤ last_index_of p) (middle ∷ after)
    pub first_ge : n ≤ first_index_of middle
    pub first_le : first_index_of middle ≤ i
    pub before_below : All (λ e. index e < first_index_of middle) (entries_of before)
    pub from_first : All (λ e. first_index_of middle ≤ index e) (entries_of (middle ∷ after))
    pub middle_last : All (λ e. index e ≤ last_index_of middle) (part_entries middle)
    pub after_behind : All (λ e. last_index_of middle < index e) (entries_of after)
    pub after_above : All (λ e. i ≤ index e) (entries_of after)

  last_index-ge :
      (i n : ℕ) (ps : List (Part E))
      → Run index n (entries_of ps)
      → i ≤ n
      → All (λ p. i ≤ last_index_of p) ps
  last_index-ge i n [] r h = tt
  last_index-ge i n ((id, e, es) ∷ ps) r h =
      let (a, b) = Run-split n (e ∷ es) (entries_of ps) r in
      let l = last_of-Run n e es a in
      (omega arith, last_index-ge i (n + length (e ∷ es)) ps b (omega arith))

  -- A log of consecutive indexes splits at each index up to the last.
  pub split :
      (i n : ℕ) (ps : List (Part E))
      → Run index n (entries_of ps)
      → n ≤ i
      → i < n + length (entries_of ps)
      → Split i n ps
  split i n [] r low high = absurd (omega arith)
  split i n ((id, e, es) ∷ ps) r low high =
      let (a, b) = Run-split n (e ∷ es) (entries_of ps) r in
      let l = last_of-Run n e es a in
      let size = length-append (e ∷ es) (entries_of ps) in
      elim (Bool-cases (ltb (index (last_of e es)) i)) [
        | inr here ↦
            let first : index e ≡ n = a.0 in
            let at : i ≤ index (last_of e es) = ground arith in
            record {
              before = [];
              middle = (id, e, es);
              after = ps;
              whole = refl;
              before_last = tt;
              from_last = (at, last_index-ge i (n + length (e ∷ es)) ps b (omega arith));
              first_ge = omega arith;
              first_le = omega arith;
              before_below = tt;
              from_first =
                  All-weaken _ _ (entries_of ((id, e, es) ∷ ps)) (λ y k. omega arith)
                    (Run-bounds n (entries_of ((id, e, es) ∷ ps)) r);
              middle_last = All-weaken _ _ (e ∷ es) (λ y k. omega arith) (Run-bounds n (e ∷ es) a);
              after_behind =
                  All-weaken _ _ (entries_of ps) (λ y k. omega arith)
                    (Run-bounds (n + length (e ∷ es)) (entries_of ps) b);
              after_above =
                  All-weaken _ _ (entries_of ps) (λ y k. omega arith)
                    (Run-bounds (n + length (e ∷ es)) (entries_of ps) b);
            }
        | inl later ↦
            let s = split i (n + length (e ∷ es)) ps b (ground arith) (omega arith) in
            let behind = s.first_ge in
            record {
              before = (id, e, es) ∷ s.before;
              middle = s.middle;
              after = s.after;
              whole = ap (◌∷◌ (id, e, es)) s.whole;
              before_last = (ground arith, s.before_last);
              from_last = s.from_last;
              first_ge = omega arith;
              first_le = s.first_le;
              before_below =
                  All-append (λ y. index y < first_index_of s.middle) (e ∷ es) (entries_of s.before)
                    (All-weaken _ _ (e ∷ es) (λ y k. omega arith) (Run-bounds n (e ∷ es) a))
                    s.before_below;
              from_first = s.from_first;
              middle_last = s.middle_last;
              after_behind = s.after_behind;
              after_above = s.after_above;
            }
      ]

  ends_at_lem :
      (i h : ℕ) (ps qs : List (Part E))
      → All (λ p. last_index_of p < i) ps
      → All (λ p. i ≤ last_index_of p) qs
      → h < length (ps ++ qs)
      → ends_at i (segments_of index (ps ++ qs)) h ≡ leb (length ps) h
  unfolding ends_at
  ends_at_lem i h [] [] a b k = absurd (omega arith)
  ends_at_lem i zero [] (q ∷ qs) a (b, bs) k = ground arith
  ends_at_lem i (suc h) [] (q ∷ qs) a (b, bs) k =
      ends_at_lem i h [] qs a bs (omega arith) ∙ ground arith
  ends_at_lem i zero (p ∷ ps) qs (a, as') b k = ground arith
  ends_at_lem i (suc h) (p ∷ ps) qs (a, as') b k =
      ends_at_lem i h ps qs as' b (omega arith) ∙ ground arith

  length-segments_of : (ps : List (Part E)) → length (segments_of index ps) ≡ length ps
  length-segments_of [] = refl
  length-segments_of (p ∷ ps) = ap suc (length-segments_of ps)

  -- The search cuts the segments in front of the middle one.
  pub segment_at-Split :
      (i n : ℕ) (ps : List (Part E)) (s : Split i n ps)
      → (take (segment_at i (segments_of index ps)) (segments_of index ps)
          ≡ segments_of index s.before)
        × (drop (segment_at i (segments_of index ps)) (segments_of index ps)
            ≡ segments_of index (s.middle ∷ s.after))
  unfolding segment_at
  segment_at-Split i n ps s =
      let whole : List (Part E) = s.before ++ s.middle ∷ s.after in
      let parts : segments_of index ps
          ≡ segments_of index s.before ++ segments_of index (s.middle ∷ s.after) =
        ap (segments_of index) s.whole
        ∙ map-append (segment_for index) s.before (s.middle ∷ s.after) in
      let size : length (segments_of index whole) ≡ length whole = length-segments_of whole in
      let found : segment_at i (segments_of index ps) ≡ length (segments_of index s.before) =
        ap (segment_at i) (ap (segments_of index) s.whole)
        ∙ search_lem (length (segments_of index whole)) (length s.before)
            (ends_at i (segments_of index whole))
            (λ h b.
              ends_at_lem i h s.before (s.middle ∷ s.after) s.before_last s.from_last (omega arith))
            (omega (arith, length-append s.before (s.middle ∷ s.after)))
        ∙ sym (length-segments_of s.before) in
      (
        ap₂ (λ (k : ℕ) (l : List Segment). take k l) found parts
            ∙ take-append (segments_of index s.before) (segments_of index (s.middle ∷ s.after)),
        ap₂ (λ (k : ℕ) (l : List Segment). drop k l) found parts
            ∙ drop-append (segments_of index s.before) (segments_of index (s.middle ∷ s.after)),
      )
