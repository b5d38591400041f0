-- ===== src/Storage/Pebble/Prefix.antt =====
-- The range from a prefix to the prefix and a byte 0xFF, which `OperationDeletePrefix` removes.
use stellmap_service.Base.{◌<◌, ◌≡◌, refl, not, ◌&&◌, [], ◌∷◌, ◌++◌, arith, All}
use stellmap_service.Text.{Bytes}
use stellmap_service.Text
use stellmap_service.Storage.Order.{lt_bytes}

-- No byte 0xFF, as in any valid UTF-8.
abbrev pub IsClean : Bytes → Type 0
IsClean = All (λ b. b < 255)

-- The range holds, of the keys without a byte 0xFF, exactly those with the prefix.
pub range-has_prefix :
    (key prefix : Bytes)
    → IsClean key
    → (not (lt_bytes key prefix) && lt_bytes key (prefix ++ 0xFF ∷ [])) ≡ Text.has_prefix key prefix
unfolding lt_bytes Text.has_prefix
range-has_prefix [] [] h = refl
range-has_prefix (a ∷ key) [] (small, h) = ground arith
range-has_prefix [] (b ∷ prefix) h = refl
range-has_prefix (a ∷ key) (b ∷ prefix) (small, h) = ground (arith, range-has_prefix key prefix h)
