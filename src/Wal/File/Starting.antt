-- ===== src/Wal/File/Starting.antt =====
-- Where `appendEntriesIncremental` starts.
use stellmap_service.Base.{
  ℕ, ◌+◌, ◌-◌, ◌^◌, ◌<◌, ◌≡◌, ◌⊎◌, inl, inr, refl, ap, ◌∙◌, true, false, List, [], ◌∷◌, ◌++◌, none,
  some, arith, ==_refl, Option-cases, length, take, get_last?, length-append,
}
use mathlib.Core.List.{map-append}
use stellmap_service.Wal.File.Writer.{next_segment_id, writer_at}
use stellmap_service.Wal.File.Mirror.{segment_for, Part, segments_of}
use stellmap_service.Wal.File.{SegmentFiles, Segment}
use stellmap_service.Wal.File.Records.{take-append}

pub last-cases :
    {A : Type 0} (xs : List A) → (xs ≡ []) ⊎ ((ys : List A) × (y : A) × (xs ≡ ys ++ y ∷ []))
last-cases [] = inl refl
last-cases (x ∷ xs) = elim (last-cases xs) [
  | inl e ↦ inr ([], x, rw e refl)
  | inr (ys, y, e) ↦ inr (x ∷ ys, y, ap (◌∷◌ x) e)
]

get_last?-append : {A : Type 0} (xs : List A) (y : A) → get_last? (xs ++ y ∷ []) ≡ some y
get_last?-append [] y = refl
get_last?-append (x ∷ []) y = refl
get_last?-append (x ∷ z ∷ xs) y = get_last?-append (z ∷ xs) y

take_init :
    {A : Type 0} (xs : List A) (y : A) → take (length (xs ++ y ∷ []) - 1) (xs ++ y ∷ []) ≡ xs
take_init xs y =
    let e : length (xs ++ y ∷ []) - 1 ≡ length xs = omega (arith, length-append xs (y ∷ [])) in
    ap (λ (k : ℕ). take k (xs ++ y ∷ [])) e ∙ take-append xs (y ∷ [])

-- a writer that begins a new segment behind the others
pub writer_at_new :
    (id : ℕ) (segments : List Segment) (fs : SegmentFiles)
    → writer_at id false segments fs
      ≡ record { front = segments; last_segment = none; next_id = id; files = fs }
unfolding writer_at
writer_at_new id segments fs = elim (Option-cases (get_last? segments)) [
  | inl e ↦ rw (writer_at, e) refl
  | inr (s, e) ↦ rw (writer_at, e) refl
]

pub behind_none :
    (l : List Segment) (fs : SegmentFiles)
    → l ≡ []
    → (writer_at (next_segment_id l) true l fs
        ≡ record { front = []; last_segment = none; next_id = next_segment_id l; files = fs })
      × (next_segment_id l ≡ 1)
unfolding writer_at next_segment_id
behind_none l fs e = rw e (refl, refl)

module _ {E : Type 0} (index : E → ℕ) where
  pub next_segment_id_last :
      (ps : List (Part E)) (p : Part E)
      → p.0 + 1 < 2 ^ 64
      → next_segment_id (segments_of index (ps ++ p ∷ [])) ≡ p.0 + 1
  unfolding next_segment_id
  next_segment_id_last ps p room =
      let e : get_last? (segments_of index (ps ++ p ∷ [])) ≡ some (segment_for index p) =
        ap get_last? (map-append (segment_for index) ps (p ∷ []))
        ∙ get_last?-append (segments_of index ps) (segment_for index p) in
      rw (next_segment_id, e) (omega arith)

  -- a writer that goes on with the last segment
  writer_at_last :
      (ps : List (Part E)) (p : Part E) (fs : SegmentFiles)
      → writer_at
          (next_segment_id (segments_of index (ps ++ p ∷ [])))
          true
          (segments_of index (ps ++ p ∷ []))
          fs
        ≡ record {
          front = segments_of index ps;
          last_segment = some (segment_for index p);
          next_id = next_segment_id (segments_of index (ps ++ p ∷ []));
          files = fs;
        }
  unfolding writer_at
  writer_at_last ps p fs =
      let segs = map-append (segment_for index) ps (p ∷ []) in
      let e : get_last? (segments_of index (ps ++ p ∷ [])) ≡ some (segment_for index p) =
        ap get_last? segs ∙ get_last?-append (segments_of index ps) (segment_for index p) in
      let t : take (length (segments_of index (ps ++ p ∷ [])) - 1)
            (segments_of index (ps ++ p ∷ []))
          ≡ segments_of index ps =
        ap (λ (l : List Segment). take (length l - 1) l) segs
        ∙ take_init (segments_of index ps) (segment_for index p) in
      rw (writer_at, e, ==_refl (next_segment_id (segments_of index (ps ++ p ∷ []))), t) refl

  pub behind_last :
      (l : List Segment) (ps : List (Part E)) (p : Part E) (fs : SegmentFiles)
      → l ≡ segments_of index (ps ++ p ∷ [])
      → writer_at (next_segment_id l) true l fs ≡ record {
        front = segments_of index ps;
        last_segment = some (segment_for index p);
        next_id = next_segment_id l;
        files = fs;
      }
  behind_last l ps p fs e = rw e (writer_at_last ps p fs)
