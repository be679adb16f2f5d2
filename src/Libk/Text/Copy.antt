-- ===== src/Libk/Text/Copy.antt =====
-- `strcpy` of string.cpp: it copies a string with its NUL if there is room, and only then stays
-- inside the destination.
use mathlib.Core.Path.{ap₂}
use mathlib.Core.List.{append_assoc}
use nemo_os.Base.{
  ℕ, zero, suc, ◌+◌, ◌<◌, ◌≡◌, ◌≢◌, refl, sym, ap, ◌∙◌, inl, inr, none, some, List, [], ◌∷◌, ◌++◌,
  arith, ltb, if◌then◌else◌, Bool-cases, length, set, take, drop, length-set,
}
use nemo_os.Libk.Text.{text, strcpy, strcpy_from}

-- The destination after a string and its NUL are written from index `i` on.
abbrev pub written : List ℕ → ℕ → List ℕ → List ℕ
written dst i [] = set dst i 0
written dst i (c ∷ s) = written (set dst i c) (i + 1) s

strcpy_from-written :
    (dst : List ℕ) (i : ℕ) (src : List ℕ)
    → strcpy_from dst i src
      ≡ (if ltb (i + length (text src)) (length dst) then some (written dst i (text src)) else none)
unfolding strcpy_from text
strcpy_from-written dst i [] = ground arith
strcpy_from-written dst i (c ∷ src) =
    ground (arith, strcpy_from-written (set dst i c) (i + 1) src, length-set dst i c)

set-split :
    (xs : List ℕ) (i v : ℕ) → i < length xs → set xs i v ≡ take i xs ++ (v ∷ drop (suc i) xs)
set-split [] i v h = absurd (omega arith)
set-split (x ∷ xs) zero v h = refl
set-split (x ∷ xs) (suc i) v h = ap (λ r. x ∷ r) (set-split xs i v (omega arith))

take-set-suc :
    (xs : List ℕ) (i v : ℕ) → i < length xs → take (suc i) (set xs i v) ≡ take i xs ++ (v ∷ [])
take-set-suc [] i v h = absurd (omega arith)
take-set-suc (x ∷ xs) zero v h = refl
take-set-suc (x ∷ xs) (suc i) v h = ap (λ r. x ∷ r) (take-set-suc xs i v (omega arith))

drop-set_lt : (xs : List ℕ) (i k v : ℕ) → i < k → drop k (set xs i v) ≡ drop k xs
drop-set_lt [] i k v h = refl
drop-set_lt (x ∷ xs) i zero v h = absurd (omega arith)
drop-set_lt (x ∷ xs) zero (suc k) v h = refl
drop-set_lt (x ∷ xs) (suc i) (suc k) v h = drop-set_lt xs i k v (omega arith)

written-split :
    (dst : List ℕ) (i : ℕ) (s : List ℕ)
    → i + length s < length dst
    → written dst i s ≡ take i dst ++ (s ++ (0 ∷ drop (suc (i + length s)) dst))
written-split dst i [] h =
    set-split dst i 0 (omega arith) ∙ ap (λ k. take i dst ++ (0 ∷ drop (suc k) dst)) (omega arith)
written-split dst i (c ∷ s) h =
    written-split (set dst i c) (i + 1) s (omega (arith, length-set dst i c))
    ∙ (ap₂ (λ front back. front ++ (s ++ (0 ∷ back))) (front dst i c (omega arith)) back
        ∙ append_assoc (take i dst) (c ∷ []) _)
  where
    front :
        (xs : List ℕ) (n v : ℕ) → n < length xs → take (n + 1) (set xs n v) ≡ take n xs ++ (v ∷ [])
    front xs n v lt =
        let e : n + 1 ≡ suc n = omega arith in
        ap (λ m. take m (set xs n v)) e ∙ take-set-suc xs n v lt

    back : drop (suc (i + 1 + length s)) (set dst i c) ≡ drop (suc (i + length (c ∷ s))) dst
    back =
        let e : suc (i + 1 + length s) ≡ suc (i + length (c ∷ s)) = omega arith in
        drop-set_lt dst i (suc (i + 1 + length s)) c (omega arith) ∙ ap (λ k. drop k dst) e

-- `strcpy` stays inside the destination exactly if the string and its NUL have room there; then
-- the destination begins with the string and the NUL, and the bytes behind them are the old ones.
pub strcpy-text :
    (dst src : List ℕ)
    → strcpy dst src ≡ (
        if ltb (length (text src)) (length dst)
        then some (text src ++ (0 ∷ drop (suc (length (text src))) dst))
        else none)
unfolding strcpy
strcpy-text dst src =
    strcpy_from-written dst 0 src ∙ (elim (Bool-cases (ltb (length (text src)) (length dst))) [
      | inl fits ↦
          rw (zero_plus, fits)
            (ap some (
              written-split dst 0 (text src) (ground arith)
              ∙ ap (λ k. text src ++ (0 ∷ drop (suc k) dst)) zero_plus))
      | inr over ↦ rw (zero_plus, over)
    ])
  where
    zero_plus : 0 + length (text src) ≡ length (text src)
    zero_plus = omega arith

text-append : (s rest : List ℕ) → text (text s ++ (0 ∷ rest)) ≡ text s
unfolding text
text-append [] rest = ground arith
text-append (c ∷ s) rest = ground (arith, text-append s rest)

same : {xs ys : List ℕ} → some xs ≡ some ys → xs ≡ ys
same e = cc

not_some : {xs : List ℕ} → some xs ≢ none
not_some e = cc

-- After a `strcpy` that stays inside the destination, the destination says what the source says.
pub text-strcpy :
    (dst src : List ℕ) {out : List ℕ} → strcpy dst src ≡ some out → text out ≡ text src
text-strcpy dst src e = elim (Bool-cases (ltb (length (text src)) (length dst))) [
  | inl fits ↦
      let rest = drop (suc (length (text src))) dst in
      ap text (same (sym e ∙ (strcpy-text dst src ∙ rw fits))) ∙ text-append src rest
  | inr over ↦ absurd (not_some (sym e ∙ (strcpy-text dst src ∙ rw over)))
]
