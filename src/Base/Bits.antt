-- ===== src/Base/Bits.antt =====
-- Bits of a byte, as the C operators on `uint8_t` give them: each law is checked at every byte
-- and every bit position.
use Prim.Native.Nat.{ℕ, zero, suc, ◌-◌, ◌<◌, ◌^◌, bit_and, bit_or}
use mathlib.Core.Path.{◌≡◌, refl}
use mathlib.Core.Bool.{Bool, true, false, ◌&&◌, ◌||◌, not}
use native.Mathlib.Omega.{arith}
use nemo_os.Base.Tests.{ltb, ◌==◌}

-- Does a test hold at every number under a bound?
unfoldable pub holds_under : (ℕ → Bool) → ℕ → Bool
holds_under test zero = true
holds_under test (suc bound) = holds_under test bound && test bound

pub holds_under-at :
    (test : ℕ → Bool) (bound i : ℕ) → i < bound → holds_under test bound ≡ true → test i ≡ true
unfolding holds_under
holds_under-at test zero i inside whole = absurd (omega arith)
holds_under-at test (suc bound) i inside whole = ground (arith, holds_under-at test bound i)

-- `byte & (1 << k)`, as a truth value.
unfoldable pub test_in : ℕ → ℕ → Bool
test_in byte k = not (bit_and byte (2 ^ k) == 0)

-- `byte | (1 << k)`.
unfoldable pub set_in : ℕ → ℕ → ℕ
set_in byte k = bit_or byte (2 ^ k)

-- `byte & ~(1 << k)`: of the complement only the low eight bits count.
unfoldable pub clear_in : ℕ → ℕ → ℕ
clear_in byte k = bit_and byte (255 - 2 ^ k)

unfoldable pub same : Bool → Bool → Bool
same true b = b
same false b = not b

pub same_eq : (a b : Bool) → same a b ≡ true → a ≡ b
unfolding same
same_eq true b h = ground arith
same_eq false b h = ground arith

-- A law about every byte and two bit positions.
table : (ℕ → ℕ → ℕ → Bool) → Bool
table p = holds_under (λ x. holds_under (λ k. holds_under (p x k) 8) 8) 256

table_sound :
    (p : ℕ → ℕ → ℕ → Bool) (x k j : ℕ) → table p ≡ true → x < 256 → k < 8 → j < 8 → p x k j ≡ true
unfolding table
table_sound p x k j h hx hk hj =
    holds_under-at (p x k) 8 j hj
      (holds_under-at (λ k. holds_under (p x k) 8) 8 k hk (holds_under-at _ 256 x hx h))

abbrev test-set_law : ℕ → ℕ → ℕ → Bool
test-set_law x k j = same (test_in (set_in x k) j) ((k == j) || test_in x j)

abbrev test-clear_law : ℕ → ℕ → ℕ → Bool
test-clear_law x k j = same (test_in (clear_in x k) j) (not (k == j) && test_in x j)

abbrev bound_law : ℕ → ℕ → ℕ → Bool
bound_law x k j = ltb (set_in x k) 256 && ltb (clear_in x k) 256

test-set_table : table test-set_law ≡ true
unfolding table holds_under same test_in set_in
test-set_table = refl

test-clear_table : table test-clear_law ≡ true
unfolding table holds_under same test_in clear_in
test-clear_table = refl

bound_table : table bound_law ≡ true
unfolding table holds_under set_in clear_in
bound_table = refl

pub test-set :
    (x k j : ℕ) → x < 256 → k < 8 → j < 8 → test_in (set_in x k) j ≡ ((k == j) || test_in x j)
test-set x k j hx hk hj = same_eq _ _ (table_sound test-set_law x k j test-set_table hx hk hj)

pub test-clear :
    (x k j : ℕ) → x < 256 → k < 8 → j < 8 → test_in (clear_in x k) j ≡ (not (k == j) && test_in x j)
test-clear x k j hx hk hj = same_eq _ _ (table_sound test-clear_law x k j test-clear_table hx hk hj)

pub set_bound : (x k : ℕ) → x < 256 → k < 8 → set_in x k < 256
set_bound x k hx hk =
    let h = table_sound bound_law x k 0 bound_table hx hk (omega arith) in ground arith

pub clear_bound : (x k : ℕ) → x < 256 → k < 8 → clear_in x k < 256
clear_bound x k hx hk =
    let h = table_sound bound_law x k 0 bound_table hx hk (omega arith) in ground arith

test_in-zero_table : holds_under (λ k. not (test_in 0 k)) 8 ≡ true
unfolding holds_under test_in
test_in-zero_table = refl

-- No bit of zero is set.
pub test_in-zero : (k : ℕ) → k < 8 → test_in 0 k ≡ false
test_in-zero k h =
    let e = holds_under-at (λ k. not (test_in 0 k)) 8 k h test_in-zero_table in ground arith
