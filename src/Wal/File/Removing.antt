-- ===== src/Wal/File/Removing.antt =====
-- The removal of the files of some neighbouring segments.
use stellmap_service.Base.{
  ℕ, ◌<◌, ◌≡◌, refl, sym, ap, ◌∙◌, false, List, [], ◌∷◌, ◌++◌, append-nil, arith, ◌==◌, ==_refl,
  All, All-append,
}
use mathlib.Core.List.{map-append}
use stellmap_service.Text.{Bytes}
use stellmap_service.Wal.File.{Codec, SegmentFiles, remove_file, remove_segments}
use stellmap_service.Wal.File.Mirror.{Part, Ordered, segments_of, file_for, files_of}
use stellmap_service.Wal.File.Writing.{Below}
use stellmap_service.Wal.File.Layouts.{All-split}
use stellmap_service.Wal.File.Looping.{Below-files_of}

-- all files have larger numbers
abbrev Above : ℕ → SegmentFiles → Type 0
Above n fs = All (λ f. n < f.0) fs

remove_file-Above : (n : ℕ) (fs : SegmentFiles) → Above n fs → remove_file n fs ≡ fs
unfolding remove_file
remove_file-Above n [] h = refl
remove_file-Above n ((j, cs) ∷ fs) (h, hs) =
    let ne : (j == n) ≡ false = ground arith in rw ne (ap (◌∷◌ (j, cs)) (remove_file-Above n fs hs))

remove_file_one :
    (n : ℕ) (bs : Bytes) (fs gs : SegmentFiles)
    → Below n fs
    → Above n gs
    → remove_file n (fs ++ (n, bs) ∷ gs) ≡ fs ++ gs
unfolding remove_file
remove_file_one n bs [] gs b a = rw (==_refl n) (remove_file-Above n gs a)
remove_file_one n bs ((j, cs) ∷ fs) gs (h, b) a =
    let ne : (j == n) ≡ false = ground arith in
    rw ne (ap (◌∷◌ (j, cs)) (remove_file_one n bs fs gs b a))

module _ {E : Type 0} where
  pub Ordered-split :
      (ps qs : List (Part E))
      → Ordered (ps ++ qs)
      → Ordered ps
        × Ordered qs
        × All (λ p. All (λ q. p.0 < q.0) qs) ps
        × All (λ q. All (λ p. p.0 < q.0) ps) qs
  Ordered-split [] qs o = (tt, o, tt, all_nil qs)
    where
      all_nil : (qs : List (Part E)) → All (λ q. All {A = Part E} (λ p. p.0 < q.0) []) qs
      all_nil [] = tt
      all_nil (q ∷ qs) = (tt, all_nil qs)
  Ordered-split (p ∷ ps) qs (a, o) =
      let (x, y, z, u) = Ordered-split ps qs o in
      let (b, c) = All-split (λ r. p.0 < r.0) ps qs a in ((b, x), y, (c, z), both p ps qs c u)
    where
      both :
          (p : Part E) (ps qs : List (Part E))
          → All (λ q. p.0 < q.0) qs
          → All (λ q. All (λ p. p.0 < q.0) ps) qs
          → All (λ q. All (λ p. p.0 < q.0) (p ∷ ps)) qs
      both p ps [] a b = tt
      both p ps (q ∷ qs) (h, a) (k, b) = ((h, k), both p ps qs a b)

  Ordered-join :
      (ps qs : List (Part E))
      → Ordered ps
      → Ordered qs
      → All (λ p. All (λ q. p.0 < q.0) qs) ps
      → Ordered (ps ++ qs)
  Ordered-join [] qs o u a = u
  Ordered-join (p ∷ ps) qs (b, o) u (h, a) =
      (All-append (λ r. p.0 < r.0) ps qs b h, Ordered-join ps qs o u a)

module _ {E : Type 0} (codec : Codec E) (index : E → ℕ) where
  Above-files_of :
      (n : ℕ) (ps : List (Part E)) → All (λ p. n < p.0) ps → Above n (files_of codec ps)
  Above-files_of n [] h = tt
  Above-files_of n (p ∷ ps) (h, hs) = (h, Above-files_of n ps hs)

  remove_segments_middle :
      (ps : List (Part E)) (fs gs : SegmentFiles)
      → Ordered ps
      → All (λ p. Below p.0 fs) ps
      → All (λ p. Above p.0 gs) ps
      → remove_segments (segments_of index ps) (fs ++ (files_of codec ps ++ gs)) ≡ fs ++ gs
  unfolding remove_segments
  remove_segments_middle [] fs gs o b a = refl
  remove_segments_middle (p ∷ ps) fs gs (x, o) (b, bs) (a, as') =
      ap (remove_segments (segments_of index ps)) (
        remove_file_one p.0 (file_for codec p).1 fs (files_of codec ps ++ gs) b
          (All-append (λ f. p.0 < f.0) (files_of codec ps) gs (Above-files_of p.0 ps x) a))
      ∙ remove_segments_middle ps fs gs o bs as'

  Below-all :
      (ps qs : List (Part E))
      → All (λ q. All (λ p. p.0 < q.0) ps) qs
      → All (λ q. Below q.0 (files_of codec ps)) qs
  Below-all ps [] h = tt
  Below-all ps (q ∷ qs) (h, hs) = (Below-files_of codec index 0 q.0 ps h, Below-all ps qs hs)

  Above-all :
      (ps qs : List (Part E))
      → All (λ p. All (λ q. p.0 < q.0) qs) ps
      → All (λ p. Above p.0 (files_of codec qs)) ps
  Above-all [] qs h = tt
  Above-all (p ∷ ps) qs (h, hs) = (Above-files_of p.0 qs h, Above-all ps qs hs)

  trivial : (ps : List (Part E)) (P : ℕ → Type 0) → ((n : ℕ) → P n) → All (λ p. P p.0) ps
  trivial [] P f = tt
  trivial (p ∷ ps) P f = (f p.0, trivial ps P f)

  -- The segments behind some go, those stay.
  pub remove_segments_behind :
      (ps qs : List (Part E))
      → Ordered (ps ++ qs)
      → remove_segments (segments_of index qs) (files_of codec (ps ++ qs)) ≡ files_of codec ps
  remove_segments_behind ps qs o =
      let (x, y, z, u) = Ordered-split ps qs o in
      ap (remove_segments (segments_of index qs)) (
        map-append (file_for codec) ps qs
        ∙ ap (λ (l : SegmentFiles). files_of codec ps ++ l) (sym (append-nil (files_of codec qs))))
      ∙ remove_segments_middle qs (files_of codec ps) [] y (Below-all ps qs u)
          (trivial qs (λ n. Above n []) (λ n. tt))
      ∙ append-nil (files_of codec ps)

  -- The segments in front of some go, those stay.
  pub remove_segments_before :
      (ps qs : List (Part E))
      → Ordered (ps ++ qs)
      → remove_segments (segments_of index ps) (files_of codec (ps ++ qs)) ≡ files_of codec qs
  remove_segments_before ps qs o =
      let (x, y, z, u) = Ordered-split ps qs o in
      ap (remove_segments (segments_of index ps)) (map-append (file_for codec) ps qs)
      ∙ remove_segments_middle ps [] (files_of codec qs) x (trivial ps (λ n. Below n []) (λ n. tt))
          (Above-all ps qs z)
