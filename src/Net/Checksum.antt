-- ===== src/Net/Checksum.antt =====
-- The checksum of src/net/ip.cpp and src/net/icmp.cpp, and the test of src/net/net.cpp.
use nemo_os.Base.{
  ℕ, zero, suc, ◌+◌, ◌-◌, ◌*◌, ◌/◌, ◌%◌, ◌^◌, ◌≤◌, ◌<◌, ◌≡◌, ◌⊎◌, refl, ap, ◌∙◌, inl, inr, Bool,
  false, Option, none, some, List, arith, ltb, ◌==◌, if◌then◌else◌, get_or, lt→ltb,
}
use nemo_os.Net.{word16}

-- The loop `while(sum >> 16)`; the first argument is fuel, and `none` is fuel that ran out.
unfoldable pub fold_from : ℕ → ℕ → Option ℕ
fold_from zero sum = if ltb sum 65536 then some sum else none
fold_from (suc fuel) sum =
    let rest = fold_from fuel (sum % 65536 + sum / 65536) in
    if ltb sum 65536 then some sum else rest

-- The loop that adds up 16-bit words, from word `i` on.
unfoldable pub sum_words : ℕ → ℕ → List ℕ → ℕ → ℕ
sum_words zero i data_bytes sum = sum
sum_words (suc rounds) i data_bytes sum =
    sum_words rounds (i + 1) data_bytes ((sum + word16 data_bytes (2 * i)) % 2 ^ 32)

unfoldable pub net_checksum : List ℕ → ℕ → Option ℕ
net_checksum data_bytes len =
    let sum = sum_words (len / 2) 0 data_bytes 0 in
    let last = get_or data_bytes (len - 1) 0 in
    let whole = if len % 2 == 1 then (sum + last) % 2 ^ 32 else sum in
    elim (fold_from 2 whole) [ none ↦ none | some s ↦ some (65535 - s) ]

-- Of a header of 20 bytes; `none` as above.
unfoldable pub ip_checksum_ok : List ℕ → Option Bool
ip_checksum_ok ip = elim (fold_from 2 (sum_words 10 0 ip 0)) [
  | none ↦ none
  | some s ↦ some (s == 0xFFFF)
]

-- The sum of ones' complement arithmetic: the remainder modulo 65535, and 65535 in place of 0
-- except for the number 0.
abbrev pub ones : ℕ → ℕ
ones zero = 0
ones (suc s) = suc (s % 65535)

ones-small : (s : ℕ) → s < 65536 → ones s ≡ s
ones-small zero h = refl
ones-small (suc s) h = omega arith

ones-fold : (s : ℕ) → 65536 ≤ s → ones (s % 65536 + s / 65536) ≡ ones s
ones-fold zero h = absurd (omega arith)
ones-fold (suc s) h = folded (suc s % 65536 + suc s / 65536) refl
  where
    folded : (t : ℕ) → t ≡ suc s % 65536 + suc s / 65536 → ones t ≡ ones (suc s)
    folded zero e = absurd (omega arith)
    folded (suc t) e = omega arith

abbrev fold_once : ℕ → ℕ
fold_once s = s % 65536 + s / 65536

fold-stop : (fuel s : ℕ) → s < 65536 → fold_from fuel s ≡ some (ones s)
unfolding fold_from
fold-stop zero s h = rw (ones-small s h, lt→ltb s 65536 h)
fold-stop (suc fuel) s h = rw (ones-small s h, lt→ltb s 65536 h)

fold-step : (fuel s : ℕ) → 65536 ≤ s → fold_from (suc fuel) s ≡ fold_from fuel (fold_once s)
unfolding fold_from
fold-step fuel s h = let big : ltb s 65536 ≡ false = ground arith in rw big

size-cases : (s : ℕ) → (s < 65536) ⊎ (65536 ≤ s)
size-cases s = ground arith

fold-one : (s : ℕ) → s < 131071 → fold_from 1 s ≡ some (ones s)
fold-one s h = elim (size-cases s) [
  | inl small ↦ fold-stop 1 s small
  | inr big ↦
      fold-step 0 s big ∙ fold-stop 0 (fold_once s) (omega arith) ∙ ap some (ones-fold s big)
]

-- Two rounds are enough for a number of 32 bits, and the loop computes the sum of ones' complement
-- arithmetic.
pub fold-ones : (s : ℕ) → s < 2 ^ 32 → fold_from 2 s ≡ some (ones s)
fold-ones s h = elim (size-cases s) [
  | inl small ↦ fold-stop 2 s small
  | inr big ↦ fold-step 1 s big ∙ fold-one (fold_once s) (omega arith) ∙ ap some (ones-fold s big)
]

-- Without wrapping, the loop adds the words to what it starts with.
unfoldable pub total : ℕ → ℕ → List ℕ → ℕ
total zero i data_bytes = 0
total (suc rounds) i data_bytes = word16 data_bytes (2 * i) + total rounds (i + 1) data_bytes

pub sum_words-total :
    (rounds i : ℕ) (data_bytes : List ℕ) (s : ℕ)
    → ((j : ℕ) → get_or data_bytes j 0 < 256)
    → s + 65535 * rounds < 2 ^ 32
    → (sum_words rounds i data_bytes s ≡ s + total rounds i data_bytes)
      × (total rounds i data_bytes ≤ 65535 * rounds)
unfolding sum_words total
sum_words-total zero i data_bytes s b h = (omega arith, omega arith)
sum_words-total (suc rounds) i data_bytes s b h =
    let low = b (2 * i) in
    let high = b (2 * i + 1) in
    let w = word16 data_bytes (2 * i) in
    let none_lost : (s + w) % 2 ^ 32 ≡ s + w = omega arith in
    let rest = sum_words-total rounds (i + 1) data_bytes (s + w) b (omega arith) in
    (
      ap (λ t. sum_words rounds (i + 1) data_bytes t) none_lost ∙ rest.0 ∙ omega arith,
      omega (arith, rest.1),
    )

-- A sum that is completed by its own complement folds to 65535.
pub ones-complement : (s : ℕ) → ones (s + (65535 - ones s)) ≡ 65535
ones-complement zero = refl
ones-complement (suc s) =
    let up : suc s + (65535 - suc (s % 65535)) ≡ suc (s + (65535 - suc (s % 65535))) =
      omega arith in
    ap ones up ∙ completed (s + (65535 - suc (s % 65535))) (omega arith)
  where
    completed : (t : ℕ) → t % 65535 ≡ 65534 → ones (suc t) ≡ 65535
    completed t e = omega arith
