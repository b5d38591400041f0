-- ===== src/Wal/Search.antt =====
-- `sort.Search` on a test that turns true once and stays true.
use stellmap_service.Base.{
  ℕ, zero, suc, ◌+◌, ◌/◌, ◌≤◌, ◌<◌, ◌≡◌, inl, inr, Bool, arith, ltb, leb, Bool-cases,
}
use stellmap_service.Wal.{search_between, search}

search_between_lem :
    (fuel i j p : ℕ) (f : ℕ → Bool)
    → ((h : ℕ) → h < j → f h ≡ leb p h)
    → i ≤ p
    → p ≤ j
    → j ≤ i + fuel
    → search_between fuel f i j ≡ p
unfolding search_between
search_between_lem zero i j p f test low high enough = omega arith
search_between_lem (suc fuel) i j p f test low high enough = elim (Bool-cases (ltb i j)) [
  | inr done ↦ rw done (ground arith)
  | inl more ↦
      let h : ℕ = (i + j) / 2 in
      let inside : h < j = ground arith in
      let above_i : i ≤ h = ground arith in
      elim (Bool-cases (f h)) [
        | inl hit ↦
            rw (more, hit)
              (search_between_lem fuel i h p f (λ k b. test k (omega arith)) low
                (let t = test h inside in ground arith) (omega arith))
        | inr miss ↦
            rw (more, miss)
              (search_between_lem fuel (h + 1) j p f test (let t = test h inside in ground arith)
                high (omega arith))
      ]
]

-- The fuel that `search` is given is enough: it finds the place at which the test turns true.
pub search_lem :
    (n p : ℕ) (f : ℕ → Bool) → ((h : ℕ) → h < n → f h ≡ leb p h) → p ≤ n → search n f ≡ p
unfolding search
search_lem n p f test high = search_between_lem n 0 n p f test (omega arith) high (omega arith)
