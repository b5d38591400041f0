-- ===== src/Storage/Digits.antt =====
-- A number written to base ten is made of digits, and so has no white space at its ends.
use stellmap_service.Base.{
  ℕ, zero, suc, ◌+◌, ◌/◌, ◌%◌, ◌≤◌, ◌<◌, ◌≡◌, inl, inr, refl, sym, subst, [], ◌∷◌, reverse,
  reverse-append, arith, ltb, Bool-cases, length, All, All-append,
}
use stellmap_service.Text.{Bytes, first_width, last_width, trim, drop_runes}
use stellmap_service.Text.Trim.{trim_of_IsTrimmed}
use stellmap_service.Storage.Uint64.{put_decimal, format_uint}

abbrev pub AreDigits : Bytes → Type 0
AreDigits = All (λ b. (48 ≤ b) × (b < 58))

put_decimal-AreDigits :
    (fuel n : ℕ) (acc : Bytes) → AreDigits acc → AreDigits (put_decimal fuel n acc)
unfolding put_decimal
put_decimal-AreDigits zero n acc a = a
put_decimal-AreDigits (suc fuel) n acc a = elim (Bool-cases (ltb n 10)) [
  | inl e ↦ rw e ((ground arith, ground arith), a)
  | inr e ↦
      rw e
        (put_decimal-AreDigits fuel (n / 10) ((48 + n % 10) ∷ acc) ((omega arith, omega arith), a))
]

pub format_uint-AreDigits : (n : ℕ) → AreDigits (format_uint n)
unfolding format_uint
format_uint-AreDigits n = put_decimal-AreDigits 20 n [] tt

length-put_decimal :
    (fuel n : ℕ) (acc : Bytes) → length (put_decimal fuel n acc) ≤ fuel + length acc
unfolding put_decimal
length-put_decimal zero n acc = omega arith
length-put_decimal (suc fuel) n acc = elim (Bool-cases (ltb n 10)) [
  | inl e ↦ rw e (omega arith)
  | inr e ↦
      rw e (let h = length-put_decimal fuel (n / 10) ((48 + n % 10) ∷ acc) in omega (arith, h))
]

pub length-format_uint : (n : ℕ) → length (format_uint n) ≤ 20
unfolding format_uint
length-format_uint n = length-put_decimal 20 n []

first_width-AreDigits : (s : Bytes) → AreDigits s → first_width s ≡ 0
unfolding first_width
first_width-AreDigits [] a = refl
first_width-AreDigits (x ∷ []) ((h, q), a) = ground arith
first_width-AreDigits (x ∷ y ∷ []) ((h, q), a) = ground arith
first_width-AreDigits (x ∷ y ∷ z ∷ s) ((h, q), a) = ground arith

last_width-AreDigits : (s : Bytes) → AreDigits s → last_width s ≡ 0
unfolding last_width
last_width-AreDigits [] a = refl
last_width-AreDigits (x ∷ []) ((h, q), a) = ground arith
last_width-AreDigits (x ∷ y ∷ []) ((h, q), ((h', q'), a)) = ground arith
last_width-AreDigits (x ∷ y ∷ z ∷ s) ((h, q), ((h', q'), ((h'', q''), a))) = ground arith

All-reverse : (s : Bytes) → AreDigits s → AreDigits (reverse s)
All-reverse [] a = tt
All-reverse (x ∷ s) (h, a) =
    subst AreDigits (sym (reverse-append (x ∷ []) s))
      (All-append (λ b. (48 ≤ b) × (b < 58)) (reverse s) (x ∷ []) (All-reverse s a) (h, tt))

pub trim-format_uint : (n : ℕ) → trim (format_uint n) ≡ format_uint n
trim-format_uint n =
    let a = format_uint-AreDigits n in
    trim_of_IsTrimmed (format_uint n) (record {
      front = first_width-AreDigits (format_uint n) a;
      back = last_width-AreDigits (reverse (format_uint n)) (All-reverse (format_uint n) a);
    })

-- A blank in front is trimmed off.
pub trim-blank : (s : Bytes) → trim (32 ∷ s) ≡ trim s
unfolding trim drop_runes first_width
trim-blank [] = refl
trim-blank (x ∷ []) = refl
trim-blank (x ∷ y ∷ s) = refl
