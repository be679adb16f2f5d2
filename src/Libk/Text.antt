-- ===== src/Libk/Text.antt =====
-- src/libk/string.cpp. A `char*` is the list of the bytes from the pointer on; a read past its end
-- gives 0, as if the array ended in a NUL.
pub mod Compare
pub mod Copy
use nemo_os.Base.{
  ℕ, zero, suc, ◌+◌, ◌&&◌, ◌||◌, not, Option, none, some, List, [], ◌∷◌, ltb, ◌==◌, if◌then◌else◌,
  length, set,
}
use nemo_os.Base.Int.{ℤ, pos, sub_ℕ}

-- `*s` and `s + 1`.
abbrev pub deref : List ℕ → ℕ
deref [] = 0
deref (c ∷ s) = c

abbrev pub next : List ℕ → List ℕ
next [] = []
next (c ∷ s) = s

-- What a string says: the bytes before the first NUL.
unfoldable pub text : List ℕ → List ℕ
text [] = []
text (c ∷ s) = if c == 0 then [] else c ∷ text s

unfoldable pub strcmp : List ℕ → List ℕ → ℤ
strcmp [] b = sub_ℕ 0 (deref b)
strcmp (c ∷ a) b =
    let rest = strcmp a (next b) in
    if not (c == 0) && (c == deref b) then rest else sub_ℕ c (deref b)

-- The loop of `strncmp`, with `n` rounds left.
unfoldable pub strncmp : List ℕ → List ℕ → ℕ → ℤ
strncmp a b zero = pos 0
strncmp a b (suc n) =
    let rest = strncmp (next a) (next b) n in
    if not (deref a == deref b) || (deref a == 0) || (deref b == 0)
    then sub_ℕ (deref a) (deref b)
    else rest

-- The loop of `strcpy` from index `i` of the destination; `none` is a write past its end.
unfoldable pub strcpy_from : List ℕ → ℕ → List ℕ → Option (List ℕ)
strcpy_from dst i [] = if ltb i (length dst) then some (set dst i 0) else none
strcpy_from dst i (c ∷ src) =
    let rest = strcpy_from (set dst i c) (i + 1) src in
    if ltb i (length dst) then (if c == 0 then some (set dst i 0) else rest) else none

unfoldable pub strcpy : List ℕ → List ℕ → Option (List ℕ)
unfolding strcpy_from
strcpy dst src = strcpy_from dst 0 src

-- The loop of `strlen`; `len` is below 2^32 as every array is.
unfoldable pub strlen_from : ℕ → List ℕ → ℕ
strlen_from len [] = len
strlen_from len (c ∷ s) = let rest = strlen_from (len + 1) s in if c == 0 then len else rest

unfoldable pub strlen : List ℕ → ℕ
unfolding strlen_from
strlen s = strlen_from 0 s
