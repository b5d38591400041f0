-- ===== src/Text/Trim.antt =====
-- strings.TrimSpace: its result is trimmed, and a trimmed string is unchanged.
use stellmap_service.Base.{
  ℕ, zero, suc, ◌≡◌, ◌≢◌, ◌⊎◌, inl, inr, refl, sym, ap, ◌∙◌, false, List, [], ◌∷◌, ◌++◌, reverse,
  append_assoc, reverse-append, reverse-reverse, arith, ◌==◌, All,
}
use stellmap_service.Text.{Bytes, first_width, last_width, drop_runes, trim, join, ascii_space}

eq_cases : (n : ℕ) → (n ≡ 0) ⊎ ((k : ℕ) × (n ≡ suc k))
eq_cases zero = inl refl
eq_cases (suc n) = inr (n, refl)

module _ (width : Bytes → ℕ) (empty : width [] ≡ 0) where
  -- What is left starts with no white space.
  width-drop_runes : (n : ℕ) (s : Bytes) → width (drop_runes width n s) ≡ 0
  unfolding drop_runes
  width-drop_runes n [] = empty
  width-drop_runes (suc n) (c ∷ r) = width-drop_runes n r
  width-drop_runes zero (c ∷ r) = elim (eq_cases (width (c ∷ r))) [
    | inl e ↦ rw (e, drop_runes) e
    | inr (k, e) ↦ rw (e, drop_runes) (width-drop_runes k r)
  ]

  drop_runes-zero : (s : Bytes) → width s ≡ 0 → drop_runes width zero s ≡ s
  unfolding drop_runes
  drop_runes-zero [] h = refl
  drop_runes-zero (c ∷ r) h = rw (h, drop_runes) refl

  -- What is left is a suffix.
  drop_runes_suffix : (n : ℕ) (s : Bytes) → (p : Bytes) × (s ≡ p ++ drop_runes width n s)
  unfolding drop_runes
  drop_runes_suffix n [] = ([], refl)
  drop_runes_suffix (suc n) (c ∷ r) = let (p, e) = drop_runes_suffix n r in (c ∷ p, ap (◌∷◌ c) e)
  drop_runes_suffix zero (c ∷ r) = elim (eq_cases (width (c ∷ r))) [
    | inl e ↦ ([], rw (e, drop_runes) refl)
    | inr (k, e) ↦ let (p, q) = drop_runes_suffix k r in (c ∷ p, rw (e, drop_runes) (ap (◌∷◌ c) q))
  ]

first_width-append : (s t : Bytes) → first_width (s ++ t) ≡ 0 → first_width s ≡ 0
unfolding first_width
first_width-append [] t h = refl
first_width-append (a ∷ []) [] h = h
first_width-append (a ∷ []) (x ∷ []) h = ground arith
first_width-append (a ∷ []) (x ∷ y ∷ t) h = ground arith
first_width-append (a ∷ b ∷ []) [] h = h
first_width-append (a ∷ b ∷ []) (x ∷ t) h = ground arith
first_width-append (a ∷ b ∷ c ∷ s) t h = h

-- No white space at either end.
pub record IsTrimmed (s : Bytes) : Type 0 where
  pub front : first_width s ≡ 0
  pub back : last_width (reverse s) ≡ 0

pub trim-IsTrimmed : (s : Bytes) → IsTrimmed (trim s)
unfolding trim first_width last_width
trim-IsTrimmed s =
    let u : Bytes = drop_runes first_width zero s in
    let d : Bytes = drop_runes last_width zero (reverse u) in
    let (p, e) = drop_runes_suffix last_width refl zero (reverse u) in
    let whole : reverse d ++ reverse p ≡ u =
      sym (reverse-append p d) ∙ sym (ap reverse e) ∙ reverse-reverse u in
    record {
      front =
          first_width-append (reverse d) (reverse p)
            (ap first_width whole ∙ width-drop_runes first_width refl zero s);
      back = ap last_width (reverse-reverse d) ∙ width-drop_runes last_width refl zero (reverse u);
    }

pub trim_of_IsTrimmed : (s : Bytes) → IsTrimmed s → trim s ≡ s
unfolding trim first_width last_width
trim_of_IsTrimmed s h =
    ap (λ (u : Bytes). reverse (drop_runes last_width zero (reverse u)))
      (drop_runes-zero first_width refl s h.front)
    ∙ ap reverse (drop_runes-zero last_width refl (reverse s) h.back)
    ∙ reverse-reverse s

pub trim-trim : (s : Bytes) → trim (trim s) ≡ trim s
trim-trim s = trim_of_IsTrimmed (trim s) (trim-IsTrimmed s)

-- White space does not reach over a dot.
first_width-dot : (s t : Bytes) → s ≢ [] → first_width s ≡ 0 → first_width (s ++ (b'.' ∷ t)) ≡ 0
unfolding first_width
first_width-dot [] t ne h = absurd (ne refl)
first_width-dot (a ∷ []) [] ne h = ground arith
first_width-dot (a ∷ []) (x ∷ t) ne h = ground arith
first_width-dot (a ∷ b ∷ []) t ne h = ground arith
first_width-dot (a ∷ b ∷ c ∷ s) t ne h = h

last_width-dot : (s t : Bytes) → s ≢ [] → last_width s ≡ 0 → last_width (s ++ (b'.' ∷ t)) ≡ 0
unfolding last_width
last_width-dot [] t ne h = absurd (ne refl)
last_width-dot (a ∷ []) [] ne h = ground arith
last_width-dot (a ∷ []) (x ∷ t) ne h = ground arith
last_width-dot (a ∷ b ∷ []) t ne h = ground arith
last_width-dot (a ∷ b ∷ c ∷ s) t ne h = h

reverse_ne_nil : (s : Bytes) → s ≢ [] → reverse s ≢ []
reverse_ne_nil s ne e = ne (sym (reverse-reverse s) ∙ ap reverse e)

-- Strings that are trimmed and not empty are trimmed when a dot joins them.
IsTrimmed-dot :
    (s t : Bytes) → IsTrimmed s → s ≢ [] → IsTrimmed t → t ≢ [] → IsTrimmed (s ++ (b'.' ∷ t))
IsTrimmed-dot s t hs ns ht nt = record {
  front = first_width-dot s t ns hs.front;
  back =
      ap last_width (
        reverse-append s (b'.' ∷ t)
        ∙ ap (λ (u : Bytes). u ++ reverse s) (reverse-append (b'.' ∷ []) t)
        ∙ append_assoc (reverse t) (b'.' ∷ []) (reverse s))
      ∙ last_width-dot (reverse t) (reverse s) (reverse_ne_nil t nt) ht.back;
}

append_ne_nil : (s t : Bytes) → s ≢ [] → s ++ t ≢ []
append_ne_nil [] t ne e = ne refl
append_ne_nil (a ∷ s) t ne e = cc

-- Trimmed strings that are not empty, joined by dots, are such a string again.
pub IsTrimmed-join :
    (p : Bytes) (ps : List Bytes)
    → IsTrimmed p
    → p ≢ []
    → All (λ q. IsTrimmed q × (q ≢ [])) ps
    → IsTrimmed (join (p ∷ ps) (b'.' ∷ [])) × (join (p ∷ ps) (b'.' ∷ []) ≢ [])
unfolding join
IsTrimmed-join p [] h ne k = (h, ne)
IsTrimmed-join p (q ∷ ps) h ne ((hq, nq), k) =
    let (ht, nt) = IsTrimmed-join q ps hq nq k in
    (IsTrimmed-dot p (join (q ∷ ps) (b'.' ∷ [])) h ne ht nt, append_ne_nil p _ ne)

-- A string without white space at its back does not end in a carriage return.
pub last_width_cr : (c : ℕ) (r : Bytes) → last_width (c ∷ r) ≡ 0 → (c == 13) ≡ false
unfolding last_width ascii_space
last_width_cr c [] h = ground arith
last_width_cr c (b ∷ []) h = ground arith
last_width_cr c (b ∷ a ∷ r) h = ground arith
