-- ===== src/Text/Count.antt =====
-- How often a byte occurs: the separators of a joined string are those of its parts and those
-- between them.
use stellmap_service.Base.{
  ℕ, ◌+◌, ◌≤◌, ◌≡◌, refl, sym, ap, ◌∙◌, List, [], ◌∷◌, ◌++◌, arith, ◌==◌, if◌then◌else◌, ==_refl,
  length, All,
}
use stellmap_service.Text.{split, Bytes, join}
use stellmap_service.Text.Split.{split-join, Lacks}

unfoldable pub count : ℕ → Bytes → ℕ
count b [] = 0
count b (c ∷ s) = (if c == b then 1 else 0) + count b s

count-append : (b : ℕ) (s t : Bytes) → count b (s ++ t) ≡ count b s + count b t
unfolding count
count-append b [] t = omega arith
count-append b (c ∷ s) t = omega (arith, count-append b s t)

count_of_Lacks : (b : ℕ) (s : Bytes) → Lacks b s → count b s ≡ 0
unfolding count
count_of_Lacks b [] h = refl
count_of_Lacks b (c ∷ s) h = ground (arith, count_of_Lacks b s h.1)

Lacks-of_count : (b : ℕ) (s : Bytes) → count b s ≡ 0 → Lacks b s
unfolding count
Lacks-of_count b [] h = tt
Lacks-of_count b (c ∷ s) h = (ground arith, Lacks-of_count b s (ground arith))

-- Each further part comes behind one more separator.
abbrev pub counts : ℕ → List Bytes → ℕ
counts b [] = 0
counts b (q ∷ qs) = 1 + count b q + counts b qs

count-join :
    (b : ℕ) (p : Bytes) (ps : List Bytes)
    → count b (join (p ∷ ps) (b ∷ [])) ≡ count b p + counts b ps
unfolding join count
count-join b p [] = omega arith
count-join b p (q ∷ qs) =
    count-append b p (b ∷ join (q ∷ qs) (b ∷ [])) ∙ ground (arith, count-join b q qs, ==_refl b)

counts_of_Lacks : (b : ℕ) (qs : List Bytes) → All (Lacks b) qs → counts b qs ≡ length qs
counts_of_Lacks b [] h = refl
counts_of_Lacks b (q ∷ qs) h = omega (arith, count_of_Lacks b q h.0, counts_of_Lacks b qs h.1)

length-le-counts : (b : ℕ) (qs : List Bytes) → length qs ≤ counts b qs
length-le-counts b [] = omega arith
length-le-counts b (q ∷ qs) = omega (arith, length-le-counts b qs)

Lacks-of_counts : (b : ℕ) (qs : List Bytes) → counts b qs ≤ length qs → All (Lacks b) qs
Lacks-of_counts b [] h = tt
Lacks-of_counts b (q ∷ qs) h = (
  Lacks-of_count b q (omega (arith, length-le-counts b qs)),
  Lacks-of_counts b qs (omega (arith, length-le-counts b qs)),
)

-- As many parts that join to the same string, where the parts of one side hold no separator, are
-- the same parts.
pub join_unique :
    (b : ℕ) (p q : Bytes) (ps qs : List Bytes)
    → Lacks b q
    → All (Lacks b) qs
    → length ps ≡ length qs
    → join (p ∷ ps) (b ∷ []) ≡ join (q ∷ qs) (b ∷ [])
    → ◌≡◌ {A = List Bytes} (p ∷ ps) (q ∷ qs)
join_unique b p q ps qs h k l e =
    let sizes : count b p + counts b ps ≡ length qs =
      sym (count-join b p ps)
      ∙ ap (count b) e
      ∙ count-join b q qs
      ∙ omega (arith, count_of_Lacks b q h, counts_of_Lacks b qs k) in
    let first : Lacks b p = Lacks-of_count b p (omega (arith, length-le-counts b ps)) in
    let others : All (Lacks b) ps = Lacks-of_counts b ps (omega arith) in
    sym (split-join b p ps first others) ∙ ap (λ (s : Bytes). split s b) e ∙ split-join b q qs h k
