-- ===== src/Wal.antt =====
-- internal/wal: `MemoryWAL`, and `mergeEntries`, which both logs share. Raft's hard state and its
-- entries are parameters, `index` reading the index of an entry. The lock of the log makes each
-- method one step.
pub mod Search
pub mod Merge
pub mod File
use stellmap_service.Base.{
  ℕ, zero, suc, ◌+◌, ◌-◌, ◌*◌, ◌/◌, ◌%◌, ◌^◌, ◌≤◌, ◌<◌, ◌≡◌, ◌≢◌, ◌↔◌, ◌⊎◌, inl, inr, refl, sym, ap,
  ap₂, ◌∙◌, subst, fun_ext, Bool, true, false, not, ◌&&◌, ◌||◌, List, [], ◌∷◌, ◌++◌, map, reverse,
  append-nil, append_assoc, reverse-append, reverse-reverse, Option, none, some, arith, ltb, leb,
  ◌==◌, if◌then◌else◌, ==_refl, ==→eq, Bool-cases, Option-cases, &&-true, length, take, drop,
  get_last?, select, any, All, length-append, length-drop, take-append-drop, select-append,
  length-select, All-append, ℤ, pos, negsuc, pos_part, neg_part, sub_ℕ, ◌+ℤ◌, ◌≤ℤ◌, int_leb,
  IsInt64, wrap_int64, wrap_int64_of_IsInt64, wrap_int64-IsInt64, Result, ok, err, ◌>>=◌,
  bind-eq-ok,
}

-- `sort.Search(n, f)`: the loop on `i` and `j`, with fuel
unfoldable pub search_between : ℕ → (ℕ → Bool) → ℕ → ℕ → ℕ
search_between zero f i j = i
search_between (suc fuel) f i j =
    let h = (i + j) / 2 in
    let above = search_between fuel f (h + 1) j in
    let below = search_between fuel f i h in if ltb i j then if f h then below else above else i

unfoldable pub search : ℕ → (ℕ → Bool) → ℕ
unfolding search_between
search n f = search_between n f 0 n

pub record MemoryWal (S E : Type 0) : Type 0 where
  pub state : S
  pub entries : List E
  pub opened : Bool

module _ {S E : Type 0} where
  -- `empty` is the hard state that Go makes
  unfoldable new_memory_wal : S → MemoryWal S E
  new_memory_wal empty = record { state = empty; entries = []; opened = false }

  unfoldable pub open_wal : MemoryWal S E → MemoryWal S E
  open_wal w = record w { opened = true }

  unfoldable pub close_wal : MemoryWal S E → MemoryWal S E
  close_wal w = record w { opened = false }

  unfoldable pub load : MemoryWal S E → S × List E
  load w = (w.state, w.entries)

module _ {E : Type 0} (index : E → ℕ) where
  -- `result[i].Index >= first`; the search asks only for places in range
  unfoldable pub reaches : ℕ → List E → ℕ → Bool
  reaches first [] i = true
  reaches first (e ∷ es) zero = leb first (index e)
  reaches first (e ∷ es) (suc i) = reaches first es i

  unfoldable pub merge_entries : List E → List E → List E
  unfolding search reaches
  merge_entries existing [] = existing
  merge_entries [] (x ∷ xs) = x ∷ xs
  merge_entries (e ∷ es) (x ∷ xs) =
      take (search (length (e ∷ es)) (reaches (index x) (e ∷ es))) (e ∷ es) ++ x ∷ xs

  unfoldable pub append : {S : Type 0} → MemoryWal S E → S → List E → MemoryWal S E
  unfolding merge_entries
  append w state entries = record w { state = state; entries = merge_entries w.entries entries }

  unfoldable pub truncate_prefix : {S : Type 0} → MemoryWal S E → ℕ → MemoryWal S E
  truncate_prefix w i = record w { entries = select (λ e. leb i (index e)) w.entries }
