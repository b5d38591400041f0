-- ===== src/Storage/Uint64.antt =====
-- Numbers as bytes: `encodeUint64` and `decodeUint64` of internal/storage/pebble.go, on big-endian
-- numbers of any width, and `strconv.FormatUint` to base ten.
use stellmap_service.Base.{
  ℕ, zero, suc, ◌+◌, ◌-◌, ◌*◌, ◌/◌, ◌%◌, ◌^◌, ◌<◌, ◌≡◌, inl, inr, refl, sym, ap, ◌∙◌, [], ◌∷◌, ◌++◌,
  arith, ltb, if◌then◌else◌, Bool-cases, length, take, length-append,
}
use stellmap_service.Text.{Bytes}

-- 256 ^ w
abbrev limit_of : ℕ → ℕ
limit_of zero = 1
limit_of (suc w) = limit_of w * 256

-- `binary.BigEndian.PutUint64` and its kin, for a number of `w` bytes
unfoldable pub put_big_endian : ℕ → ℕ → Bytes
put_big_endian zero n = []
put_big_endian (suc w) n = put_big_endian w (n / 256) ++ n % 256 ∷ []

unfoldable pub big_endian : ℕ → Bytes → ℕ
big_endian acc [] = acc
big_endian acc (b ∷ bs) = big_endian (acc * 256 + b) bs

unfoldable pub encode_uint64 : ℕ → Bytes
unfolding put_big_endian
encode_uint64 value = put_big_endian 8 value

-- fewer than eight bytes read as zero
unfoldable pub decode_uint64 : Bytes → ℕ
unfolding big_endian
decode_uint64 bytes = if ltb (length bytes) 8 then 0 else big_endian 0 (take 8 bytes)

-- The digits of a number in front of `acc`. Twenty suffice for a `uint64`.
unfoldable pub put_decimal : ℕ → ℕ → Bytes → Bytes
put_decimal zero n acc = acc
put_decimal (suc fuel) n acc =
    let more = put_decimal fuel (n / 10) ((48 + n % 10) ∷ acc) in
    if ltb n 10 then (48 + n) ∷ acc else more

unfoldable pub format_uint : ℕ → Bytes
unfolding put_decimal
format_uint n = put_decimal 20 n []

big_endian-append :
    (acc b : ℕ) (bs : Bytes) → big_endian acc (bs ++ b ∷ []) ≡ big_endian acc bs * 256 + b
unfolding big_endian
big_endian-append acc b [] = refl
big_endian-append acc b (c ∷ bs) = big_endian-append (acc * 256 + c) b bs

length-put_big_endian : (w n : ℕ) → length (put_big_endian w n) ≡ w
unfolding put_big_endian
length-put_big_endian zero n = refl
length-put_big_endian (suc w) n =
    length-append (put_big_endian w (n / 256)) (n % 256 ∷ [])
    ∙ omega (arith, length-put_big_endian w (n / 256))

-- A number that fits the width is read back from its bytes.
pub big_endian-put_big_endian : (w n : ℕ) → n < limit_of w → big_endian 0 (put_big_endian w n) ≡ n
unfolding put_big_endian big_endian
big_endian-put_big_endian zero n h = omega arith
big_endian-put_big_endian (suc w) n h =
    let ih = big_endian-put_big_endian w (n / 256) (omega arith) in
    big_endian-append 0 (n % 256) (put_big_endian w (n / 256)) ∙ omega (arith, ih)

take-length : (bs : Bytes) → take (length bs) bs ≡ bs
take-length [] = refl
take-length (b ∷ bs) = ap (◌∷◌ b) (take-length bs)

decode_uint64_eight : (bs : Bytes) → length bs ≡ 8 → decode_uint64 bs ≡ big_endian 0 bs
unfolding decode_uint64
decode_uint64_eight bs size =
    let whole : take 8 bs ≡ bs = ap (λ (k : ℕ). take k bs) (sym size) ∙ take-length bs in
    rw (size, whole) refl

-- A `uint64` survives its encoding.
pub decode-encode_uint64 : (n : ℕ) → n < 2 ^ 64 → decode_uint64 (encode_uint64 n) ≡ n
unfolding encode_uint64
decode-encode_uint64 n h =
    decode_uint64_eight (put_big_endian 8 n) (length-put_big_endian 8 n)
    ∙ big_endian-put_big_endian 8 n (omega arith)

-- the value of digits to base ten
unfoldable pub decimal_value : ℕ → Bytes → ℕ
decimal_value acc [] = acc
decimal_value acc (c ∷ r) = decimal_value (acc * 10 + (c - 48)) r

-- 10 ^ fuel
abbrev ten_to : ℕ → ℕ
ten_to zero = 1
ten_to (suc k) = ten_to k * 10

decimal_value-put_decimal :
    (fuel n : ℕ) (acc : Bytes)
    → n < ten_to fuel
    → 0 < fuel
    → decimal_value 0 (put_decimal fuel n acc) ≡ decimal_value n acc
unfolding decimal_value put_decimal
decimal_value-put_decimal zero n acc h p = absurd (omega arith)
decimal_value-put_decimal (suc fuel) n acc h p = elim (Bool-cases (ltb n 10)) [
  | inl e ↦ rw e (ap (λ (k : ℕ). decimal_value k acc) (omega arith))
  | inr e ↦ rw e (
      decimal_value-put_decimal fuel (n / 10) ((48 + n % 10) ∷ acc) (omega arith) (ground arith)
      ∙ ap (λ (k : ℕ). decimal_value k acc) (omega arith))
]

-- Twenty digits are enough for a `uint64`: the number is read back from its digits.
pub decimal_value-format_uint : (n : ℕ) → n < 2 ^ 64 → decimal_value 0 (format_uint n) ≡ n
unfolding format_uint decimal_value
decimal_value-format_uint n h = decimal_value-put_decimal 20 n [] (omega arith) (omega arith)
