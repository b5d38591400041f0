-- ===== src/Wal/Merge.antt =====
-- What a log holds at each index, after an append and after a truncation.
use stellmap_service.Base.{
  ℕ, zero, suc, ◌+◌, ◌-◌, ◌≤◌, ◌<◌, ◌≡◌, inl, inr, refl, sym, ap, ◌∙◌, subst, true, false, List, [],
  ◌∷◌, ◌++◌, Option, none, some, arith, ltb, leb, ◌==◌, if◌then◌else◌, Bool-cases, length, take,
  select,
}
use stellmap_service.Wal.{reaches, merge_entries, append, truncate_prefix, MemoryWal, search}
use stellmap_service.Wal.Search.{search_lem}

module _ {E : Type 0} (index : E → ℕ) where
  -- The entries stand at consecutive indexes, from the given one on.
  abbrev pub Run : ℕ → List E → Type 0
  Run n [] = Unit
  Run n (e ∷ es) = (index e ≡ n) × Run (suc n) es

  -- The entry at an index.
  abbrev pub entry_at : ℕ → List E → Option E
  entry_at i [] = none
  entry_at i (e ∷ es) = if index e == i then some e else entry_at i es

  reaches-Run :
      (first n h : ℕ) (es : List E)
      → Run n es
      → h < length es
      → reaches index first es h ≡ leb first (n + h)
  unfolding reaches
  reaches-Run first n h [] r b = absurd (omega arith)
  reaches-Run first n zero (e ∷ es) (x, r) b = rw x (ground arith)
  reaches-Run first n (suc h) (e ∷ es) (x, r) b =
      reaches-Run first (suc n) h es r (omega arith) ∙ ground arith

  -- the length of the part of a run below an index
  below : ℕ → ℕ → ℕ → ℕ
  below first n size = if leb first n then 0 else if leb first (n + size) then first - n else size

  select-nothing :
      (first n : ℕ) (es : List E) → Run n es → first ≤ n → select (λ e. ltb (index e) first) es ≡ []
  select-nothing first n [] r h = refl
  select-nothing first n (e ∷ es) (x, r) h =
      let out : ltb (index e) first ≡ false = ground arith in
      rw out (select-nothing first (suc n) es r (omega arith))

  take_nil : (p : ℕ) → take {A = E} p [] ≡ []
  take_nil zero = refl
  take_nil (suc p) = refl

  take-select :
      (first n : ℕ) (es : List E)
      → Run n es
      → take (below first n (length es)) es ≡ select (λ e. ltb (index e) first) es
  unfolding below
  take-select first n [] r = take_nil (below first n 0)
  take-select first n (e ∷ es) (x, r) = elim (Bool-cases (leb first n)) [
    | inl old ↦ rw old (sym (select-nothing first n (e ∷ es) (x, r) (ground arith)))
    | inr new ↦
        let inside : ltb (index e) first ≡ true = ground arith in
        let shorter : below first n (suc (length es)) ≡ suc (below first (suc n) (length es)) =
          ground arith in
        let ih = take-select first (suc n) es r in rw (inside, shorter) (ap (◌∷◌ e) ih)
  ]

  -- The binary search cuts the log where its indexes reach the first new one.
  pub merge_entries-select :
      (n : ℕ) (es : List E) (x : E) (xs : List E)
      → Run n es
      → merge_entries index es (x ∷ xs) ≡ select (λ e. ltb (index e) (index x)) es ++ x ∷ xs
  unfolding merge_entries below
  merge_entries-select n [] x xs r = refl
  merge_entries-select n (e ∷ es) x xs r =
      let size : ℕ = length (e ∷ es) in
      let found : search size (reaches index (index x) (e ∷ es)) ≡ below (index x) n size =
        search_lem size (below (index x) n size) (reaches index (index x) (e ∷ es))
          (λ h b. reaches-Run (index x) n h (e ∷ es) r b ∙ ground arith) (ground arith) in
      ap (λ (p : ℕ). take p (e ∷ es) ++ x ∷ xs) found
      ∙ ap (λ (l : List E). l ++ x ∷ xs) (take-select (index x) n (e ∷ es) r)

  entry_at-select :
      (i first : ℕ) (es : List E)
      → entry_at i (select (λ e. ltb (index e) first) es)
        ≡ (if ltb i first then entry_at i es else none)
  entry_at-select i first [] = ground arith
  entry_at-select i first (e ∷ es) = ground (arith, entry_at-select i first es)

  entry_at-none : (i n : ℕ) (es : List E) → Run n es → i < n → entry_at i es ≡ none
  entry_at-none i n [] r h = refl
  entry_at-none i n (e ∷ es) (x, r) h =
      let ne : (index e == i) ≡ false = ground arith in
      rw ne (entry_at-none i (suc n) es r (omega arith))

  entry_at-append_none :
      (i : ℕ) (es fs : List E) → entry_at i es ≡ none → entry_at i (es ++ fs) ≡ entry_at i fs
  entry_at-append_none i [] fs h = refl
  entry_at-append_none i (e ∷ es) fs h = ground (arith, entry_at-append_none i es fs)

  entry_at-append_right :
      (i : ℕ) (es fs : List E) → entry_at i fs ≡ none → entry_at i (es ++ fs) ≡ entry_at i es
  entry_at-append_right i [] fs h = h
  entry_at-append_right i (e ∷ es) fs h = ground (arith, entry_at-append_right i es fs)

  -- After an append of new entries to a log of consecutive indexes, each index from the first new
  -- one on reads as in the new entries, and each one below it as before.
  pub entry_at-append :
      {S : Type 0} (i n : ℕ) (w : MemoryWal S E) (state : S) (x : E) (xs : List E)
      → Run n w.entries
      → Run (index x) (x ∷ xs)
      → entry_at i (append index w state (x ∷ xs)).entries
        ≡ (if ltb i (index x) then entry_at i w.entries else entry_at i (x ∷ xs))
  unfolding append
  entry_at-append i n w state x xs r s =
      let old : List E = select (λ e. ltb (index e) (index x)) w.entries in
      let kept = entry_at-select i (index x) w.entries in
      ap (entry_at i) (merge_entries-select n w.entries x xs r)
      ∙ elim (Bool-cases (ltb i (index x))) [
        | inl b ↦ rw b (
            entry_at-append_right i old (x ∷ xs)
              (entry_at-none i (index x) (x ∷ xs) s (ground arith))
            ∙ (rw b at kept))
        | inr b ↦ rw b (entry_at-append_none i old (x ∷ xs) (rw b at kept))
      ]

  Run-select : (first n : ℕ) (es : List E) → Run n es → Run n (select (λ e. ltb (index e) first) es)
  Run-select first n [] r = tt
  Run-select first n (e ∷ es) (x, r) = elim (Bool-cases (ltb (index e) first)) [
    | inl b ↦ rw b (x, Run-select first (suc n) es r)
    | inr b ↦ rw b (rw (select-nothing first (suc n) es r (ground arith)) tt)
  ]

  Run-append : (n : ℕ) (es fs : List E) → Run n es → Run (n + length es) fs → Run n (es ++ fs)
  Run-append n [] fs r s = subst (λ (k : ℕ). Run k fs) (omega arith) s
  Run-append n (e ∷ es) fs (x, r) s =
      (x, Run-append (suc n) es fs r (subst (λ (k : ℕ). Run k fs) (omega arith) s))

  length-select_below :
      (first n : ℕ) (es : List E)
      → Run n es
      → n ≤ first
      → first ≤ n + length es
      → n + length (select (λ e. ltb (index e) first) es) ≡ first
  length-select_below first n [] r a b = omega arith
  length-select_below first n (e ∷ es) (x, r) a b = elim (Bool-cases (ltb (index e) first)) [
    | inl c ↦
        let ih = length-select_below first (suc n) es r (ground arith) (omega arith) in
        rw c (omega (arith, ih))
    | inr c ↦ rw (c, select-nothing first (suc n) es r (ground arith)) (ground arith)
  ]

  -- New entries that begin inside the log or right behind it leave its indexes consecutive.
  append-Run :
      {S : Type 0} (n : ℕ) (w : MemoryWal S E) (state : S) (x : E) (xs : List E)
      → Run n w.entries
      → Run (index x) (x ∷ xs)
      → n ≤ index x
      → index x ≤ n + length w.entries
      → Run n (append index w state (x ∷ xs)).entries
  unfolding append
  append-Run n w state x xs r s a b =
      let old : List E = select (λ e. ltb (index e) (index x)) w.entries in
      subst (Run n) (sym (merge_entries-select n w.entries x xs r)) (
        Run-append n old (x ∷ xs) (Run-select (index x) n w.entries r) (
          subst (λ (k : ℕ). Run k (x ∷ xs)) (sym (length-select_below (index x) n w.entries r a b))
            s))

  entry_at-select_from :
      (i first : ℕ) (es : List E)
      → entry_at i (select (λ e. leb first (index e)) es)
        ≡ (if leb first i then entry_at i es else none)
  entry_at-select_from i first [] = ground arith
  entry_at-select_from i first (e ∷ es) = ground (arith, entry_at-select_from i first es)

  -- A truncation removes exactly the entries below its index.
  entry_at-truncate_prefix :
      {S : Type 0} (i first : ℕ) (w : MemoryWal S E)
      → entry_at i (truncate_prefix index w first).entries
        ≡ (if leb first i then entry_at i w.entries else none)
  unfolding truncate_prefix
  entry_at-truncate_prefix i first w = entry_at-select_from i first w.entries
