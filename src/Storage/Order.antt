-- ===== src/Storage/Order.antt =====
-- The order of Go strings, byte by byte, and the successor of a key.
use stellmap_service.Base.{
  ◌≡◌, refl, Bool, true, false, not, ◌&&◌, ◌||◌, [], ◌∷◌, ◌++◌, arith, ltb, ◌==◌,
}
use stellmap_service.Text.{Bytes}

-- `s < t`
unfoldable pub lt_bytes : Bytes → Bytes → Bool
lt_bytes [] [] = false
lt_bytes [] (b ∷ t) = true
lt_bytes (a ∷ s) [] = false
lt_bytes (a ∷ s) (b ∷ t) = ltb a b || (a == b && lt_bytes s t)

pub lt_bytes_irrefl : (s : Bytes) → lt_bytes s s ≡ false
unfolding lt_bytes
lt_bytes_irrefl [] = refl
lt_bytes_irrefl (a ∷ s) = ground (arith, lt_bytes_irrefl s)

pub lt_bytes_trans :
    (s t u : Bytes) → lt_bytes s t ≡ true → lt_bytes t u ≡ true → lt_bytes s u ≡ true
unfolding lt_bytes
lt_bytes_trans [] [] u h k = absurd cc
lt_bytes_trans [] (b ∷ t) [] h k = absurd cc
lt_bytes_trans [] (b ∷ t) (c ∷ u) h k = refl
lt_bytes_trans (a ∷ s) [] u h k = absurd cc
lt_bytes_trans (a ∷ s) (b ∷ t) [] h k = absurd cc
lt_bytes_trans (a ∷ s) (b ∷ t) (c ∷ u) h k = ground (arith, lt_bytes_trans s t u)

pub lt_bytes_total : (s t : Bytes) → lt_bytes s t ≡ false → lt_bytes t s ≡ false → s ≡ t
unfolding lt_bytes
lt_bytes_total [] [] h k = refl
lt_bytes_total [] (b ∷ t) h k = absurd cc
lt_bytes_total (a ∷ s) [] h k = absurd cc
lt_bytes_total (a ∷ s) (b ∷ t) h k = ground (arith, lt_bytes_total s t)

lt_bytes-nil : (t : Bytes) → lt_bytes t [] ≡ false
unfolding lt_bytes
lt_bytes-nil [] = refl
lt_bytes-nil (b ∷ t) = refl

-- A zero byte behind a key gives the least key above it.
pub lt_bytes-successor : (k t : Bytes) → lt_bytes t (k ++ 0 ∷ []) ≡ not (lt_bytes k t)
unfolding lt_bytes
lt_bytes-successor [] [] = refl
lt_bytes-successor [] (b ∷ t) = rw (lt_bytes-nil t) (ground arith)
lt_bytes-successor (a ∷ k) [] = refl
lt_bytes-successor (a ∷ k) (b ∷ t) = ground (arith, lt_bytes-successor k t)
