-- ===== src/Text/Split.antt =====
-- The laws of the tests on strings, and of `split` and `join`.
use stellmap_service.Base.{
  ℕ, ◌≡◌, ◌↔◌, inl, inr, refl, sym, ap, ◌∙◌, true, false, List, [], ◌∷◌, ◌++◌, arith, ==_refl,
  ==→eq, ◌==◌, Bool-cases, &&-true, All,
}
use stellmap_service.Text.{Bytes, eqb, has_prefix, split, cons_head, join}

pub eqb_refl : (s : Bytes) → eqb s s ≡ true
unfolding eqb
eqb_refl [] = refl
eqb_refl (a ∷ s) = ground (arith, eqb_refl s)

pub eqb→eq : (s t : Bytes) → eqb s t ≡ true → s ≡ t
unfolding eqb
eqb→eq [] [] h = refl
eqb→eq [] (b ∷ t) h = cc
eqb→eq (a ∷ s) [] h = cc
eqb→eq (a ∷ s) (b ∷ t) h = ground (arith, eqb→eq s t)

-- `ground` reads an equality test of strings through this.
pub eqb_iff : (s t : Bytes) → (eqb s t ≡ true) ↔ (s ≡ t)
eqb_iff s t = (eqb→eq s t, λ e. rw e (eqb_refl t))

pub has_prefix-append : (p s : Bytes) → has_prefix (p ++ s) p ≡ true
unfolding has_prefix
has_prefix-append [] s = refl
has_prefix-append (a ∷ p) s = ground (arith, has_prefix-append p s)

pub has_prefix→append : (s p : Bytes) → has_prefix s p ≡ true → (r : Bytes) × (s ≡ p ++ r)
unfolding has_prefix
has_prefix→append s [] h = (s, refl)
has_prefix→append [] (b ∷ p) h = absurd cc
has_prefix→append (a ∷ s) (b ∷ p) h =
    let (r, e) = has_prefix→append s p (&&-true (a == b) _ h).1 in (r, ground arith)

-- The byte does not occur.
abbrev pub Lacks : ℕ → Bytes → Type 0
Lacks b = All (λ c. (c == b) ≡ false)

split_of_Lacks : (b : ℕ) (s : Bytes) → Lacks b s → split s b ≡ s ∷ []
unfolding split
split_of_Lacks b [] h = refl
split_of_Lacks b (c ∷ r) h = rw h.0 (rw (split_of_Lacks b r h.1))

split-append : (b : ℕ) (s t : Bytes) → Lacks b s → split (s ++ (b ∷ t)) b ≡ s ∷ split t b
unfolding split
split-append b [] t h = ground (arith, ==_refl b)
split-append b (c ∷ r) t h = rw h.0 (rw (split-append b r t h.1))

-- Splitting undoes joining when no part holds the separator.
pub split-join :
    (b : ℕ) (p : Bytes) (ps : List Bytes)
    → Lacks b p
    → All (Lacks b) ps
    → split (join (p ∷ ps) (b ∷ [])) b ≡ p ∷ ps
unfolding join
split-join b p [] h k = split_of_Lacks b p h
split-join b p (q ∷ ps) h k =
    split-append b p (join (q ∷ ps) (b ∷ [])) h ∙ ap (◌∷◌ p) (split-join b q ps k.0 k.1)

abbrev AreLacking : ℕ → List Bytes → Type 0
AreLacking b = All (Lacks b)

cons_head-Lacks :
    (b c : ℕ) (ps : List Bytes) → (c == b) ≡ false → AreLacking b ps → AreLacking b (cons_head c ps)
cons_head-Lacks b c [] h k = ((h, tt), tt)
cons_head-Lacks b c (p ∷ ps) h k = ((h, k.0), k.1)

-- No part of a split holds the separator.
pub split-Lacks : (s : Bytes) (b : ℕ) → AreLacking b (split s b)
unfolding split
split-Lacks [] b = (tt, tt)
split-Lacks (c ∷ r) b = elim (Bool-cases (c == b)) [
  | inl e ↦ rw e (tt, split-Lacks r b)
  | inr e ↦ rw e (cons_head-Lacks b c (split r b) e (split-Lacks r b))
]

split_ne_nil : (s : Bytes) (b : ℕ) → (p : Bytes) × (ps : List Bytes) × (split s b ≡ p ∷ ps)
unfolding split
split_ne_nil [] b = ([], [], refl)
split_ne_nil (c ∷ r) b = elim (Bool-cases (c == b)) [
  | inl e ↦ ([], split r b, rw e refl)
  | inr e ↦ let (p, ps, q) = split_ne_nil r b in (c ∷ p, ps, rw (e, q) refl)
]

join-cons :
    (b : ℕ) (q : Bytes) (qs : List Bytes) → join ([] ∷ q ∷ qs) (b ∷ []) ≡ b ∷ join (q ∷ qs) (b ∷ [])
unfolding join
join-cons b q qs = refl

join-cons_head :
    (b c : ℕ) (p : Bytes) (ps : List Bytes)
    → join ((c ∷ p) ∷ ps) (b ∷ []) ≡ c ∷ join (p ∷ ps) (b ∷ [])
unfolding join
join-cons_head b c p [] = refl
join-cons_head b c p (q ∷ ps) = refl

-- Joining undoes splitting.
pub join-split : (s : Bytes) (b : ℕ) → join (split s b) (b ∷ []) ≡ s
unfolding split
join-split [] b = unfold join in refl
join-split (c ∷ r) b =
    let (p, ps, q) = split_ne_nil r b in
    let ih : join (p ∷ ps) (b ∷ []) ≡ r =
      ap (λ (l : List Bytes). join l (b ∷ [])) (sym q) ∙ join-split r b in
    elim (Bool-cases (c == b)) [
      | inl e ↦ rw (e, q) (rw (join-cons b p ps, ih, ==→eq c b e) refl)
      | inr e ↦ rw (e, q) (rw (join-cons_head b c p ps, ih) refl)
    ]
