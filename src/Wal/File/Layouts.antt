-- ===== src/Wal/File/Layouts.antt =====
-- What holds of layouts, and of the indexes of entries.
use stellmap_service.Base.{
  ℕ, ◌+◌, ◌^◌, ◌<◌, ◌≡◌, refl, ap, ◌∙◌, List, [], ◌∷◌, ◌++◌, append-nil, All, All-append,
}
use stellmap_service.Wal.File.Mirror.{
  Part, part_entries, last_of, entries_of, entries_of-append, Ordered,
}

-- Raft's indexes begin at one, and stay below the largest `uint64`.
pub record IsIndex {E : Type 0} (index : E → ℕ) : Type 0 where
  pub positive : (e : E) → 0 < index e
  pub small : (e : E) → index e + 1 < 2 ^ 64

pub All-split :
    {A : Type 0} (P : A → Type 0) (xs ys : List A) → All P (xs ++ ys) → All P xs × All P ys
All-split P [] ys h = (tt, h)
All-split P (x ∷ xs) ys (h, hs) = let (a, b) = All-split P xs ys hs in ((h, a), b)

pub All-weaken :
    {A : Type 0} (P Q : A → Type 0) (xs : List A) → ((x : A) → P x → Q x) → All P xs → All Q xs
All-weaken P Q [] f h = tt
All-weaken P Q (x ∷ xs) f (h, hs) = (f x h, All-weaken P Q xs f hs)

module _ {E : Type 0} where
  pub Ordered-append_last :
      (ps : List (Part E)) (p : Part E)
      → Ordered ps
      → All (λ q. q.0 < p.0) ps
      → Ordered (ps ++ p ∷ [])
  Ordered-append_last [] p o h = (tt, tt)
  Ordered-append_last (q ∷ ps) p (a, o) (h, hs) =
      (All-append (λ r. q.0 < r.0) ps (p ∷ []) a (h, tt), Ordered-append_last ps p o hs)

  -- the numbers of a layout that ends in a part
  pub Ordered-init :
      (ps : List (Part E)) (p : Part E)
      → Ordered (ps ++ p ∷ [])
      → Ordered ps × All (λ q. q.0 < p.0) ps
  Ordered-init [] p o = (tt, tt)
  Ordered-init (q ∷ ps) p (a, o) =
      let (below, last) = All-split (λ r. q.0 < r.0) ps (p ∷ []) a in
      let (o', hs) = Ordered-init ps p o in ((below, o'), (last.0, hs))

  pub last_of_append : (e x : E) (es : List E) → last_of e (es ++ x ∷ []) ≡ x
  last_of_append e x [] = refl
  last_of_append e x (y ∷ es) = last_of_append y x es

  pub entries_of_last :
      (ps : List (Part E)) (p : Part E)
      → entries_of (ps ++ p ∷ []) ≡ entries_of ps ++ part_entries p
  entries_of_last ps p =
      entries_of-append ps (p ∷ [])
      ∙ ap (λ (l : List E). entries_of ps ++ l) (append-nil (part_entries p))
