-- ===== src/Libk/Itoa.antt =====
-- src/libk/itoa.cpp: a number in decimal digits.

use mathlib.Core.List.{append-nil, append_assoc}
use nemo_os.Base.{
  ℕ, zero, suc, ◌+◌, ◌-◌, ◌*◌, ◌/◌, ◌%◌, ◌^◌, ◌≤◌, ◌<◌, ◌≡◌, ◌≢◌, refl, ap, inl, inr, Option, none,
  some, List, [], ◌∷◌, ◌++◌, arith, ◌==◌, if◌then◌else◌, Bool-cases, length, get_or, take,
}

-- The loop that fills `temp` with digits, the last digit first. A value of 32 bits has ten digits
-- at most, so ten rounds of fuel are enough; `none` would be a longer loop.
unfoldable pub fill_temp : ℕ → ℕ → List ℕ → Option (List ℕ)
fill_temp zero value temp = if value == 0 then some temp else none
fill_temp (suc fuel) value temp =
    let rest = fill_temp fuel (value / 10) (temp ++ ((b'0' + value % 10) ∷ [])) in
    if value == 0 then some temp else rest

-- The loop that writes `temp[i - 1]` down to `temp[0]` to the buffer.
unfoldable pub emit : ℕ → List ℕ → List ℕ
emit zero temp = []
emit (suc i) temp = get_or temp i 0 ∷ emit i temp

-- The bytes that `itoa` writes, before the NUL.
unfoldable pub itoa : ℕ → Option (List ℕ)
itoa value =
    if value == 0
    then some (b'0' ∷ [])
    else elim (fill_temp 10 value []) [ none ↦ none | some temp ↦ some (emit (length temp) temp) ]

-- The number that a text of digits stands for.
unfoldable pub parse : ℕ → List ℕ → ℕ
parse acc [] = acc
parse acc (c ∷ s) = parse (acc * 10 + (c - b'0')) s

-- Every character is a decimal digit.
abbrev pub AreDigits : List ℕ → Type 0
AreDigits [] = Unit
AreDigits (c ∷ s) = (b'0' ≤ c) × (c ≤ b'9') × AreDigits s

-- The number that `temp` stands for, read from its end.
abbrev value_of : List ℕ → ℕ
value_of [] = 0
value_of (c ∷ s) = (c - b'0') + 10 * value_of s

-- `10 ^ n`, as a recursion.
abbrev power : ℕ → ℕ
power zero = 1
power (suc n) = 10 * power n

-- The digits of a value, last digit first.
digits_of : ℕ → ℕ → List ℕ
digits_of zero value = []
digits_of (suc fuel) value =
    if value == 0 then [] else (b'0' + value % 10) ∷ digits_of fuel (value / 10)

fill_temp-digits_of :
    (fuel value : ℕ) (temp : List ℕ)
    → value < power fuel
    → fill_temp fuel value temp ≡ some (temp ++ digits_of fuel value)
unfolding fill_temp digits_of
fill_temp-digits_of zero value temp h = ground (arith, append-nil temp)
fill_temp-digits_of (suc fuel) value temp h = ground (
  arith,
  fill_temp-digits_of fuel (value / 10) (temp ++ ((b'0' + value % 10) ∷ [])),
  append_assoc temp ((b'0' + value % 10) ∷ []) (digits_of fuel (value / 10)),
  append-nil temp,
)

value_of-digits_of : (fuel value : ℕ) → value < power fuel → value_of (digits_of fuel value) ≡ value
unfolding digits_of
value_of-digits_of zero value h = omega arith
value_of-digits_of (suc fuel) value h = ground (arith, value_of-digits_of fuel (value / 10))

length-digits_of : (fuel value : ℕ) → length (digits_of fuel value) ≤ fuel
unfolding digits_of
length-digits_of zero value = omega arith
length-digits_of (suc fuel) value = ground (arith, length-digits_of fuel (value / 10))

IsDigit : ℕ → Type 0
IsDigit c = (b'0' ≤ c) × (c ≤ b'9')

IsDigit-at :
    (fuel value i : ℕ)
    → i < length (digits_of fuel value)
    → IsDigit (get_or (digits_of fuel value) i 0)
unfolding IsDigit digits_of
IsDigit-at zero value i h = absurd (omega arith)
IsDigit-at (suc fuel) value zero h = ground arith
IsDigit-at (suc fuel) value (suc i) h = ground (arith, IsDigit-at fuel (value / 10) i)

some_digits : (fuel value : ℕ) → value ≢ 0 → 1 ≤ length (digits_of (suc fuel) value)
unfolding digits_of
some_digits fuel value h = ground arith

-- The digit at index `i` counts ten times as much as the one before it.
value_of-take-suc :
    (temp : List ℕ) (i : ℕ)
    → i < length temp
    → value_of (take (suc i) temp) ≡ value_of (take i temp) + power i * (get_or temp i 0 - b'0')
value_of-take-suc [] i h = absurd (omega arith)
value_of-take-suc (c ∷ temp) zero h = omega arith
value_of-take-suc (c ∷ temp) (suc i) h = omega (arith, value_of-take-suc temp i (omega arith))

parse-emit :
    (i acc : ℕ) (temp : List ℕ)
    → i ≤ length temp
    → parse acc (emit i temp) ≡ acc * power i + value_of (take i temp)
unfolding parse emit
parse-emit zero acc temp h = omega arith
parse-emit (suc i) acc temp h = omega (
  arith,
  parse-emit i (acc * 10 + (get_or temp i 0 - b'0')) temp (omega arith),
  value_of-take-suc temp i (omega arith),
)

emit-AreDigits :
    (i : ℕ) (temp : List ℕ)
    → ((j : ℕ) → j < i → IsDigit (get_or temp j 0))
    → AreDigits (emit i temp)
unfolding emit IsDigit
emit-AreDigits zero temp h = tt
emit-AreDigits (suc i) temp h = (
  (h i (omega arith)).0,
  (h i (omega arith)).1,
  emit-AreDigits i temp (λ j lt. h j (omega arith)),
)

length-emit : (i : ℕ) (temp : List ℕ) → length (emit i temp) ≡ i
unfolding emit
length-emit zero temp = refl
length-emit (suc i) temp = ap suc (length-emit i temp)

take_all : (xs : List ℕ) → take (length xs) xs ≡ xs
take_all [] = refl
take_all (x ∷ xs) = ap (λ r. x ∷ r) (take_all xs)

-- For every value of 32 bits `itoa` writes between one and ten decimal digits, within `temp` and
-- a buffer of 16 bytes, and the digits stand for the value.
pub parse-itoa :
    (value : ℕ)
    → value < 2 ^ 32
    → (s : List ℕ) × (itoa value ≡ some s)
      × (parse 0 s ≡ value)
      × AreDigits s
      × (1 ≤ length s)
      × (length s ≤ 10)
unfolding itoa
parse-itoa value h = elim (Bool-cases (value == 0)) [
  | inl nil ↦
      (b'0' ∷ [], rw nil, unfold parse in ground arith, omega arith, omega arith, omega arith)
  | inr more ↦
      let temp = digits_of 10 value in
      let inside : value < power 10 = omega arith in
      (
        emit (length temp) temp,
        rw (more, fill_temp-digits_of 10 value [] inside),
        omega (
          arith,
          parse-emit (length temp) 0 temp (omega arith),
          ap value_of (take_all temp),
          value_of-digits_of 10 value inside,
        ),
        emit-AreDigits (length temp) temp (IsDigit-at 10 value),
        omega (arith, length-emit (length temp) temp, some_digits 9 value (ground arith)),
        omega (arith, length-emit (length temp) temp, length-digits_of 10 value),
      )
]
