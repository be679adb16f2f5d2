-- ===== src/Terminal/Screen.antt =====
-- src/terminal.cpp: the cursor stays on the screen.
use nemo_os.Base.{
  ℕ, ◌+◌, ◌-◌, ◌*◌, ◌≤◌, ◌<◌, ◌≡◌, ◌⊎◌, refl, ◌∙◌, inl, inr, List, [], ◌∷◌, arith, leb, ◌==◌,
  if◌then◌else◌, Bool-cases, length, length-set,
}
use nemo_os.Terminal.{
  Terminal, width, height, entry, serial_putchar, update_cursor, clear, init, scroll, place, wrap,
  putchar, write, backspace,
}
use nemo_os.Terminal.Scroll.{scroll-cells, length-blank_rows}

-- The screen has all its cells, the position is one of them, and the controller has it.
pub record OnScreen (t : Terminal) : Type 0 where
  pub full : length t.buffer ≡ height * width
  pub row_inside : t.row < height
  pub col_inside : t.col < width
  pub shown : t.cursor ≡ t.row * width + t.col

-- Before the cursor is brought back: a row or a column more at most.
record Moved (t : Terminal) : Type 0 where
  full : length t.buffer ≡ height * width
  row_near : t.row ≤ height
  col_near : t.col ≤ width
  one : (t.row < height) ⊎ (t.col ≡ 0)

place-Moved :
    (c : ℕ) (t : Terminal)
    → length t.buffer ≡ height * width
    → t.row < height
    → t.col < width
    → Moved (place c t)
unfolding place
place-Moved c t full r k = elim (Bool-cases (c == b'\n')) [
  | inl e ↦
      rw e (record { full = full; row_near = omega arith; col_near = omega arith; one = inr refl })
  | inr e ↦ elim (Bool-cases (c == 8)) [
    | inl q ↦
        rw (e, q)
          (record {
            full = length-set t.buffer (t.row * width + (t.col - 1)) (entry t.color (b' ')) ∙ full;
            row_near = omega arith;
            col_near = omega arith;
            one = inl r;
          })
    | inr q ↦
        rw (e, q)
          (record {
            full = length-set t.buffer (t.row * width + t.col) (entry t.color c) ∙ full;
            row_near = omega arith;
            col_near = omega arith;
            one = inl r;
          })
  ]
]

wrap-Moved : (t : Terminal) → Moved t → Moved (wrap t) × ((wrap t).col < width)
unfolding wrap
wrap-Moved t p = elim (Bool-cases (leb width t.col)) [
  | inl e ↦ rw e (
    record {
      full = p.full;
      row_near = ground (arith, p.one, p.row_near);
      col_near = omega arith;
      one = inr refl;
    },
    omega arith,
  )
  | inr e ↦ rw e (p, ground arith)
]

update_cursor-OnScreen :
    (t : Terminal)
    → length t.buffer ≡ height * width
    → t.row < height
    → t.col < width
    → OnScreen (update_cursor t)
unfolding update_cursor
update_cursor-OnScreen t full r k = record {
  full = full;
  row_inside = r;
  col_inside = k;
  shown = omega arith;
}

scroll-col : (t : Terminal) → (scroll t).col ≡ t.col
unfolding scroll
scroll-col t = refl

-- The end of `putchar`.
settle-OnScreen :
    (t : Terminal)
    → Moved t
    → t.col < width
    → OnScreen (update_cursor (if leb height t.row then scroll t else t))
settle-OnScreen t p k = elim (Bool-cases (leb height t.row)) [
  | inl e ↦
      let s = scroll-cells t 0 p.full in
      rw e
        (update_cursor-OnScreen (scroll t) s.1 (omega (arith, s.2)) (omega (arith, scroll-col t)))
  | inr e ↦ rw e (update_cursor-OnScreen t p.full (ground arith) k)
]

-- `putchar` of any byte on a terminal whose screen is whole and whose position is on it leaves it
-- so, and the screen's controller shows the position: no cell outside the screen is written.
pub putchar-OnScreen : (c : ℕ) (t : Terminal) → OnScreen t → OnScreen (putchar c t)
unfolding putchar
putchar-OnScreen c t o =
    let t1 : Terminal = record t { serial = serial_putchar c t.serial } in
    let w = wrap-Moved (place c t1) (place-Moved c t1 o.full o.row_inside o.col_inside) in
    settle-OnScreen (wrap (place c t1)) w.0 w.1

pub write-OnScreen : (str : List ℕ) (t : Terminal) → OnScreen t → OnScreen (write str t)
unfolding write
write-OnScreen [] t o = o
write-OnScreen (c ∷ str) t o = write-OnScreen str (putchar c t) (putchar-OnScreen c t o)

clear-OnScreen : (t : Terminal) → length t.buffer ≡ height * width → OnScreen (clear t)
unfolding clear
clear-OnScreen t full =
    update_cursor-OnScreen _ (length-blank_rows height 0 (entry t.color (b' ')) t.buffer ∙ full)
      (omega arith) (omega arith)

-- The states of the terminal after `init`: any sequence of calls.
pub data Step : Terminal → Terminal → Type 0 where
  clearing : (t : Terminal) → Step t (clear t)
  putting : (c : ℕ) (t : Terminal) → Step t (putchar c t)
  writing : (str : List ℕ) (t : Terminal) → Step t (write str t)
  erasing : (t : Terminal) → Step t (backspace t)

pub data Steps : Terminal → Terminal → Type 0 where
  start : (t : Terminal) → Steps t t
  after : (t t1 t2 : Terminal) → Steps t t1 → Step t1 t2 → Steps t t2

Step-OnScreen : {t t1 : Terminal} → OnScreen t → Step t t1 → OnScreen t1
unfolding backspace
Step-OnScreen o (clearing t) = clear-OnScreen t o.full
Step-OnScreen o (putting c t) = putchar-OnScreen c t o
Step-OnScreen o (writing str t) = write-OnScreen str t o
Step-OnScreen o (erasing t) = putchar-OnScreen 8 t o

init-OnScreen : (t : Terminal) → length t.buffer ≡ height * width → OnScreen (init t)
unfolding init
init-OnScreen t full =
    let o = clear-OnScreen (record t { row = 0; col = 0 }) full in
    record { full = o.full; row_inside = o.row_inside; col_inside = o.col_inside; shown = o.shown }

Steps-OnScreen : {t t1 : Terminal} → OnScreen t → Steps t t1 → OnScreen t1
Steps-OnScreen o (start t) = o
Steps-OnScreen o (after t t1 t2 s last) = Step-OnScreen (Steps-OnScreen o s) last

-- After `init`, whatever is written, erased or cleared, the position stays on the screen, the
-- screen keeps its 2000 cells, and the screen's controller shows the position.
pub reachable-OnScreen :
    (t t1 : Terminal) → length t.buffer ≡ height * width → Steps (init t) t1 → OnScreen t1
reachable-OnScreen t t1 full s = Steps-OnScreen (init-OnScreen t full) s
