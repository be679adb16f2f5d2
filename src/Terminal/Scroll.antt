-- ===== src/Terminal/Scroll.antt =====
-- src/terminal.cpp: `scroll` in place moves the screen up by a row.
use nemo_os.Base.{
  ℕ, zero, suc, ◌+◌, ◌-◌, ◌*◌, ◌≤◌, ◌≡◌, refl, ap, ◌∙◌, Bool, ◌&&◌, List, arith, ltb, leb,
  if◌then◌else◌, length, set, get_or, length-set, get_or-set,
}
use nemo_os.Terminal.{
  Terminal, width, height, blank_row, copy_row, blank_rows, copy_rows, scroll, entry,
}

length-blank_row : (k x y v : ℕ) (b : List ℕ) → length (blank_row k x y v b) ≡ length b
unfolding blank_row
length-blank_row zero x y v b = refl
length-blank_row (suc k) x y v b =
    length-blank_row k (x + 1) y v (set b (y * width + x) v) ∙ length-set b (y * width + x) v

length-copy_row : (k x y : ℕ) (b : List ℕ) → length (copy_row k x y b) ≡ length b
unfolding copy_row
length-copy_row zero x y b = refl
length-copy_row (suc k) x y b =
    let v : ℕ = get_or b (y * width + x) 0 in
    length-copy_row k (x + 1) y (set b ((y - 1) * width + x) v)
    ∙ length-set b ((y - 1) * width + x) v

length-copy_rows : (k y : ℕ) (b : List ℕ) → length (copy_rows k y b) ≡ length b
unfolding copy_rows
length-copy_rows zero y b = refl
length-copy_rows (suc k) y b =
    length-copy_rows k (y + 1) (copy_row width 0 y b) ∙ length-copy_row width 0 y b

pub length-blank_rows : (k y v : ℕ) (b : List ℕ) → length (blank_rows k y v b) ≡ length b
unfolding blank_rows
length-blank_rows zero y v b = refl
length-blank_rows (suc k) y v b =
    length-blank_rows k (y + 1) v (blank_row width 0 y v b) ∙ length-blank_row width 0 y v b

-- Is cell `j` one of the `k` from column `x` of row `y`?
abbrev in_row : ℕ → ℕ → ℕ → ℕ → Bool
in_row k x y j = leb (y * width + x) j && ltb j (y * width + x + k)

get_or-blank_row :
    (k x y v j : ℕ) (b : List ℕ)
    → y * width + x + k ≤ length b
    → get_or (blank_row k x y v b) j 0 ≡ (if in_row k x y j then v else get_or b j 0)
unfolding blank_row
get_or-blank_row zero x y v j b fits = ground arith
get_or-blank_row (suc k) x y v j b fits =
    get_or-blank_row k (x + 1) y v j (set b (y * width + x) v)
      (omega (arith, length-set b (y * width + x) v))
    ∙ ground (arith, get_or-set b (y * width + x) j v 0)

get_or-copy_row :
    (k x y j : ℕ) (b : List ℕ)
    → 1 ≤ y
    → x + k ≤ width
    → y * width + x + k ≤ length b
    → get_or (copy_row k x y b) j 0
      ≡ (if in_row k x (y - 1) j then get_or b (j + width) 0 else get_or b j 0)
unfolding copy_row
get_or-copy_row zero x y j b first narrow fits = ground arith
get_or-copy_row (suc k) x y j b first narrow fits =
    let v : ℕ = get_or b (y * width + x) 0 in
    get_or-copy_row k (x + 1) y j (set b ((y - 1) * width + x) v) first (omega arith)
      (omega (arith, length-set b ((y - 1) * width + x) v))
    ∙ ground (
      arith,
      get_or-set b ((y - 1) * width + x) (j + width) v 0,
      get_or-set b ((y - 1) * width + x) j v 0,
      same,
    )
  where
    same : j ≡ (y - 1) * width + x → get_or b (y * width + x) 0 ≡ get_or b (j + width) 0
    same e = ap (λ i. get_or b i 0) (omega arith)

get_or-copy_rows :
    (k y j : ℕ) (b : List ℕ)
    → 1 ≤ y
    → (y + k) * width ≤ length b
    → get_or (copy_rows k y b) j 0 ≡ (
        if leb ((y - 1) * width) j && ltb j ((y - 1 + k) * width)
        then get_or b (j + width) 0
        else get_or b j 0)
unfolding copy_rows
get_or-copy_rows zero y j b first fits = ground arith
get_or-copy_rows (suc k) y j b first fits =
    get_or-copy_rows k (y + 1) j (copy_row width 0 y b) (omega arith)
      (omega (arith, length-copy_row width 0 y b))
    ∙ ground (
      arith,
      get_or-copy_row width 0 y (j + width) b first (omega arith) (omega arith),
      get_or-copy_row width 0 y j b first (omega arith) (omega arith),
    )

-- `scroll` on a full screen: every row shows what the row below it showed, the last row is blank,
-- and the cursor is in the last row; the loop that copies in place loses no cell.
pub scroll-cells :
    (t : Terminal) (j : ℕ)
    → length t.buffer ≡ height * width
    → (get_or (scroll t).buffer j 0 ≡ (
        if ltb j ((height - 1) * width)
        then get_or t.buffer (j + width) 0
        else if ltb j (height * width)
        then entry t.color (b' ')
        else get_or t.buffer j 0))
      × (length (scroll t).buffer ≡ height * width)
      × ((scroll t).row ≡ height - 1)
unfolding scroll
scroll-cells t j full =
    let copied : List ℕ = copy_rows (height - 1) 1 t.buffer in
    let size : length copied ≡ height * width = length-copy_rows (height - 1) 1 t.buffer ∙ full in
    (
      get_or-blank_row width 0 (height - 1) (entry t.color (b' ')) j copied (omega (arith, size))
          ∙ ground (
            arith,
            get_or-copy_rows (height - 1) 1 j t.buffer (omega arith) (omega (arith, full)),
          ),
      length-blank_row width 0 (height - 1) (entry t.color (b' ')) copied ∙ size,
      refl,
    )
