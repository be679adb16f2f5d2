-- ===== src/Libk/Text/Compare.antt =====
-- `strcmp` and `strncmp` of string.cpp decide equality and order of what the strings say.

use nemo_os.Base.{
  ℕ, zero, suc, ◌+◌, ◌≡◌, ◌↔◌, refl, sym, ap, ◌∙◌, true, false, List, [], ◌∷◌, arith, ◌==◌,
  if◌then◌else◌, length, take,
}
use nemo_os.Base.Int.{ℤ, pos, sub_ℕ}
use nemo_os.Libk.Text.{text, strcmp, strncmp, strlen, strlen_from}

-- The first difference of two texts, as a difference of bytes; a missing byte counts as 0.
unfoldable pub lex : List ℕ → List ℕ → ℤ
lex [] [] = pos 0
lex [] (d ∷ y) = sub_ℕ 0 d
lex (c ∷ x) [] = sub_ℕ c 0
lex (c ∷ x) (d ∷ y) = let rest = lex x y in if c == d then rest else sub_ℕ c d

text-nonzero : (c : ℕ) (s : List ℕ) → (c == 0) ≡ false → text (c ∷ s) ≡ c ∷ text s
unfolding text
text-nonzero c s e = rw e

text-zero : (c : ℕ) (s : List ℕ) → (c == 0) ≡ true → text (c ∷ s) ≡ []
unfolding text
text-zero c s e = rw e

-- `strcmp` returns the difference of the first bytes in which the two texts differ, 0 if they do
-- not differ.
pub strcmp-lex : (a b : List ℕ) → strcmp a b ≡ lex (text a) (text b)
unfolding strcmp lex text
strcmp-lex [] [] = ground arith
strcmp-lex [] (d ∷ b) = ground arith
strcmp-lex (c ∷ a) [] = ground arith
strcmp-lex (c ∷ a) (d ∷ b) = ground (arith, strcmp-lex a b)

lex-eq_zero : (x y : List ℕ) → lex (text x) (text y) ≡ pos 0 → text x ≡ text y
unfolding lex text
lex-eq_zero [] [] e = refl
lex-eq_zero [] (d ∷ y) e = ground arith
lex-eq_zero (c ∷ x) [] e = ground arith
lex-eq_zero (c ∷ x) (d ∷ y) e = ground (arith, lex-eq_zero x y)

lex_self : (x : List ℕ) → lex x x ≡ pos 0
unfolding lex
lex_self [] = refl
lex_self (c ∷ x) = ground (arith, lex_self x)

-- `strcmp` returns 0 exactly if the two strings say the same.
pub strcmp-eq_zero : (a b : List ℕ) → (strcmp a b ≡ pos 0) ↔ (text a ≡ text b)
strcmp-eq_zero a b = (
  λ e. lex-eq_zero a b (sym (strcmp-lex a b) ∙ e),
  λ e. strcmp-lex a b ∙ (ap (lex (text a)) (sym e) ∙ lex_self (text a)),
)

-- `strncmp` is `strcmp` on the first `n` bytes of the two texts.
pub strncmp-lex : (a b : List ℕ) (n : ℕ) → strncmp a b n ≡ lex (take n (text a)) (take n (text b))
unfolding strncmp lex text
strncmp-lex a b zero = refl
strncmp-lex [] [] (suc n) = ground arith
strncmp-lex [] (d ∷ b) (suc n) = ground arith
strncmp-lex (c ∷ a) [] (suc n) = ground arith
strncmp-lex (c ∷ a) (d ∷ b) (suc n) = ground (arith, strncmp-lex a b n)

strlen_from-text : (len : ℕ) (s : List ℕ) → strlen_from len s ≡ len + length (text s)
unfolding strlen_from text
strlen_from-text len [] = ground arith
strlen_from-text len (c ∷ s) = ground (arith, strlen_from-text (len + 1) s)

-- `strlen` counts the bytes before the first NUL.
pub strlen-text : (s : List ℕ) → strlen s ≡ length (text s)
unfolding strlen
strlen-text s = strlen_from-text 0 s ∙ omega arith
