-- ===== src/Text.antt =====
-- Go strings as lists of bytes, with the functions of package strings that the service calls.
-- `strings.TrimSpace` is exact on every byte string: a white-space rune is removed at its UTF-8
-- encoding, one to three bytes long, read from the front or from the back.
pub mod Trim
pub mod Split
pub mod Count
use Prim.Native.String.{String}
use Prim.Native.Char.{code}
use stellmap_service.Base.{
  ℕ, zero, suc, Bool, true, false, ◌&&◌, ◌||◌, List, [], ◌∷◌, ◌++◌, reverse, Option, none, some,
  ◌==◌, leb, if◌then◌else◌, drop, length,
}
use mathlib.Core.Option

abbrev pub Bytes : Type 0
Bytes = List ℕ

-- `==` on strings
unfoldable pub eqb : Bytes → Bytes → Bool
eqb [] [] = true
eqb (a ∷ s) (b ∷ t) = a == b && eqb s t
eqb _ _ = false

-- the characters of `unicode.IsSpace` below 0x80
ascii_space : ℕ → Bool
ascii_space c = (leb 9 c && leb c 13) || c == 32

-- U+0085 and U+00A0
two_byte_space : ℕ → ℕ → Bool
two_byte_space a b = a == 0xC2 && (b == 0x85 || b == 0xA0)

-- U+1680, U+2000 to U+200A, U+2028, U+2029, U+202F, U+205F and U+3000
three_byte_space : ℕ → ℕ → ℕ → Bool
three_byte_space a b c =
    (a == 0xE1 && b == 0x9A && c == 0x80)
    || (a == 0xE2
        && b == 0x80
        && ((leb 0x80 c && leb c 0x8A) || c == 0xA8 || c == 0xA9 || c == 0xAF))
    || (a == 0xE2 && b == 0x81 && c == 0x9F)
    || (a == 0xE3 && b == 0x80 && c == 0x80)

-- The width of the white-space rune at the front, or 0.
unfoldable pub first_width : Bytes → ℕ
unfolding ascii_space two_byte_space three_byte_space
first_width [] = 0
first_width (a ∷ []) = if ascii_space a then 1 else 0
first_width (a ∷ b ∷ []) = if ascii_space a then 1 else if two_byte_space a b then 2 else 0
first_width (a ∷ b ∷ c ∷ r) =
    if ascii_space a
    then 1
    else if two_byte_space a b
    then 2
    else if three_byte_space a b c
    then 3
    else 0

-- The width of the white-space rune at the back of a string that is given from back to front.
unfoldable pub last_width : Bytes → ℕ
unfolding ascii_space two_byte_space three_byte_space
last_width [] = 0
last_width (c ∷ []) = if ascii_space c then 1 else 0
last_width (c ∷ b ∷ []) = if ascii_space c then 1 else if two_byte_space b c then 2 else 0
last_width (c ∷ b ∷ a ∷ r) =
    if ascii_space c
    then 1
    else if two_byte_space b c
    then 2
    else if three_byte_space a b c
    then 3
    else 0

-- Drops `n` bytes, and then the runes that `width` finds at the front.
unfoldable pub drop_runes : (Bytes → ℕ) → ℕ → Bytes → Bytes
drop_runes width n [] = []
drop_runes width (suc n) (c ∷ r) = drop_runes width n r
drop_runes width zero (c ∷ r) = elim (width (c ∷ r)) [ zero ↦ c ∷ r | suc n ↦ drop_runes width n r ]

-- strings.TrimSpace
unfoldable pub trim : Bytes → Bytes
unfolding drop_runes first_width last_width
trim s = reverse (drop_runes last_width zero (reverse (drop_runes first_width zero s)))

-- strings.HasPrefix
unfoldable pub has_prefix : Bytes → Bytes → Bool
has_prefix s [] = true
has_prefix [] (b ∷ p) = false
has_prefix (a ∷ s) (b ∷ p) = a == b && has_prefix s p

-- strings.HasSuffix
unfoldable pub has_suffix : Bytes → Bytes → Bool
unfolding has_prefix
has_suffix s p = has_prefix (reverse s) (reverse p)

-- strings.Index, with `none` for -1
unfoldable pub index : Bytes → Bytes → Option ℕ
unfolding has_prefix
index [] p = if has_prefix [] p then some 0 else none
index (a ∷ s) p =
    let later = Option.map suc (index s p) in if has_prefix (a ∷ s) p then some 0 else later

abbrev pub cons_head : ℕ → List Bytes → List Bytes
cons_head c [] = (c ∷ []) ∷ []
cons_head c (p ∷ ps) = (c ∷ p) ∷ ps

-- strings.Split at a separator of one byte
unfoldable pub split : Bytes → ℕ → List Bytes
split [] b = [] ∷ []
split (c ∷ r) b = let parts = split r b in if c == b then [] ∷ parts else cons_head c parts

-- strings.SplitN(s, sep, 2) at a separator of one byte: `none` where there is none
unfoldable pub cut : Bytes → ℕ → Option (Bytes × Bytes)
cut [] b = none
cut (c ∷ r) b =
    let later = Option.map (λ (p : Bytes × Bytes). (c ∷ p.0, p.1)) (cut r b) in
    if c == b then some ([], r) else later

-- strings.Join
unfoldable pub join : List Bytes → Bytes → Bytes
join [] sep = []
join (p ∷ []) sep = p
join (p ∷ q ∷ ps) sep = p ++ (sep ++ join (q ∷ ps) sep)

-- The bytes of an ASCII text.
abbrev pub codes : String → Bytes
codes String.[] = []
codes (String.◌∷◌ c s) = code c ∷ codes s

-- strings.TrimPrefix
unfoldable pub trim_prefix : Bytes → Bytes → Bytes
unfolding has_prefix
trim_prefix s p = if has_prefix s p then drop (length p) s else s
