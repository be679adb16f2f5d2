-- ===== src/Libk/Memory.antt =====
-- src/libk/memory.cpp, on arrays. A source and a destination are two arrays: no caller in the
-- kernel lets them overlap. A read out of bounds gives 0 and a write there is lost.
use mathlib.Core.Path.{ap₂}
use nemo_os.Base.{
  ℕ, zero, suc, ◌+◌, ◌%◌, ◌≤◌, ◌<◌, ◌≡◌, refl, ◌∙◌, ◌&&◌, List, [], ◌∷◌, arith, ltb, leb,
  if◌then◌else◌, length, set, get_or, take, length-set, length-take, get_or-set,
}

-- The loop of `memcpy` from index `i`, with `rounds` rounds left.
unfoldable pub memcpy_from : ℕ → ℕ → List ℕ → List ℕ → List ℕ
memcpy_from zero i dest src = dest
memcpy_from (suc rounds) i dest src = memcpy_from rounds (i + 1) (set dest i (get_or src i 0)) src

unfoldable pub memcpy : List ℕ → List ℕ → ℕ → List ℕ
unfolding memcpy_from
memcpy dest src size = memcpy_from size 0 dest src

unfoldable pub memset_from : ℕ → ℕ → List ℕ → ℕ → List ℕ
memset_from zero i dest value = dest
memset_from (suc rounds) i dest value = memset_from rounds (i + 1) (set dest i (value % 256)) value

unfoldable pub memset : List ℕ → ℕ → ℕ → List ℕ
unfolding memset_from
memset dest value size = memset_from size 0 dest value

-- The bytes after the loop of `memcpy`: those it came to are the source's, the others stay.
get_or-memcpy_from :
    (rounds i : ℕ) (dest src : List ℕ) (j : ℕ)
    → get_or (memcpy_from rounds i dest src) j 0 ≡ (
        if leb i j && ltb j (i + rounds) && ltb j (length dest)
        then get_or src j 0
        else get_or dest j 0)
unfolding memcpy_from
get_or-memcpy_from zero i dest src j = ground arith
get_or-memcpy_from (suc rounds) i dest src j = ground (
  arith,
  get_or-memcpy_from rounds (i + 1) (set dest i (get_or src i 0)) src j,
  get_or-set dest i j (get_or src i 0) 0,
  length-set dest i (get_or src i 0),
)

length-memcpy_from :
    (rounds i : ℕ) (dest src : List ℕ) → length (memcpy_from rounds i dest src) ≡ length dest
unfolding memcpy_from
length-memcpy_from zero i dest src = refl
length-memcpy_from (suc rounds) i dest src =
    length-memcpy_from rounds (i + 1) (set dest i (get_or src i 0)) src ∙ length-set dest i _

pub length-memcpy : (dest src : List ℕ) (size : ℕ) → length (memcpy dest src size) ≡ length dest
unfolding memcpy
length-memcpy dest src size = length-memcpy_from size 0 dest src

-- `memcpy` makes the first `size` bytes of the destination those of the source, as far as the
-- destination reaches, and leaves the bytes behind them alone.
pub get_or-memcpy :
    (dest src : List ℕ) (size j : ℕ)
    → get_or (memcpy dest src size) j 0
      ≡ (if ltb j size && ltb j (length dest) then get_or src j 0 else get_or dest j 0)
unfolding memcpy
get_or-memcpy dest src size j = ground (arith, get_or-memcpy_from size 0 dest src j)

-- Lists are equal if they have the same length and the same entries.
ext :
    (xs ys : List ℕ)
    → length xs ≡ length ys
    → ((j : ℕ) → j < length xs → get_or xs j 0 ≡ get_or ys j 0)
    → xs ≡ ys
ext [] [] e h = refl
ext [] (y ∷ ys) e h = absurd (omega arith)
ext (x ∷ xs) [] e h = absurd (omega arith)
ext (x ∷ xs) (y ∷ ys) e h =
    ap₂ ◌∷◌ (h 0 (omega arith)) (ext xs ys (omega arith) (λ j lt. h (suc j) (omega arith)))

get_or-take :
    (n : ℕ) (xs : List ℕ) (j : ℕ) → get_or (take n xs) j 0 ≡ (if ltb j n then get_or xs j 0 else 0)
get_or-take zero xs j = ground arith
get_or-take (suc n) [] j = ground arith
get_or-take (suc n) (x ∷ xs) zero = ground arith
get_or-take (suc n) (x ∷ xs) (suc j) = ground (arith, get_or-take n xs j)

-- What was copied can be read back.
pub take-memcpy :
    (dest src : List ℕ) (size : ℕ)
    → size ≤ length dest
    → size ≤ length src
    → take size (memcpy dest src size) ≡ take size src
take-memcpy dest src size hd hs =
    ext (take size (memcpy dest src size)) (take size src)
      (omega (
        arith,
        length-take size (memcpy dest src size),
        length-take size src,
        length-memcpy dest src size,
      ))
      (λ j lt. ground (
        arith,
        get_or-take size (memcpy dest src size) j,
        get_or-take size src j,
        get_or-memcpy dest src size j,
        length-take size (memcpy dest src size),
        length-memcpy dest src size,
      ))
