-- ===== src/Terminal.antt =====
-- src/terminal.cpp: the screen, the cursor and what goes to the serial port. The screen is the
-- array of its 2000 cells; waiting for the serial port is left out.
pub mod Scroll
pub mod Screen
pub mod Tests
use nemo_os.Base.{
  ℕ, zero, suc, ◌+◌, ◌-◌, ◌*◌, ◌%◌, ◌^◌, List, [], ◌∷◌, ltb, leb, ◌==◌, if◌then◌else◌, set, get_or,
}

abbrev pub width : ℕ
width = 80

abbrev pub height : ℕ
height = 25

-- `cursor` is the position that the screen's controller has been given, and `serial` what has been
-- sent, the last byte first.
pub record Terminal : Type 0 where
  pub buffer : List ℕ
  pub row : ℕ
  pub col : ℕ
  pub color : ℕ
  pub cursor : ℕ
  pub serial : List ℕ

unfoldable pub serial_putchar : ℕ → List ℕ → List ℕ
serial_putchar c serial = if c == b'\n' then b'\r' ∷ c ∷ serial else c ∷ serial

-- `char` is signed, so that a byte from 128 on fills the upper half with ones.
unfoldable pub entry : ℕ → ℕ → ℕ
entry color c = if ltb c 128 then c + color * 256 else 0xFF00 + c

-- The inner loops of `clear` and `scroll`, over row `y` from column `x`, with `k` rounds left.
unfoldable pub blank_row : ℕ → ℕ → ℕ → ℕ → List ℕ → List ℕ
blank_row zero x y v b = b
blank_row (suc k) x y v b = blank_row k (x + 1) y v (set b (y * width + x) v)

unfoldable pub copy_row : ℕ → ℕ → ℕ → List ℕ → List ℕ
copy_row zero x y b = b
copy_row (suc k) x y b =
    copy_row k (x + 1) y (set b ((y - 1) * width + x) (get_or b (y * width + x) 0))

-- Their outer loops.
unfoldable pub blank_rows : ℕ → ℕ → ℕ → List ℕ → List ℕ
blank_rows zero y v b = b
blank_rows (suc k) y v b = blank_rows k (y + 1) v (blank_row width 0 y v b)

unfoldable pub copy_rows : ℕ → ℕ → List ℕ → List ℕ
copy_rows zero y b = b
copy_rows (suc k) y b = copy_rows k (y + 1) (copy_row width 0 y b)

unfoldable pub update_cursor : Terminal → Terminal
update_cursor t = record t { cursor = (t.row * width + t.col) % 2 ^ 16 }

unfoldable pub clear : Terminal → Terminal
clear t =
    update_cursor
      (record t { buffer = blank_rows height 0 (entry t.color b' ') t.buffer; row = 0; col = 0 })

-- The port set-up of `serial_init` is not part of the state.
unfoldable pub init : Terminal → Terminal
init t =
    let t1 = clear (record t { row = 0; col = 0 }) in
    record t1 { serial = serial_putchar b'\n' t1.serial }

unfoldable pub scroll : Terminal → Terminal
scroll t = record t {
  buffer = blank_row width 0 (height - 1) (entry t.color b' ') (copy_rows (height - 1) 1 t.buffer);
  row = height - 1;
}

-- The three cases of `putchar`.
unfoldable pub place : ℕ → Terminal → Terminal
place c t =
    let back = t.col - 1 in
    if c == b'\n'
    then record t { col = 0; row = t.row + 1 }
    else if c == 8
    then record t { col = back; buffer = set t.buffer (t.row * width + back) (entry t.color b' ') }
    else record t {
      buffer = set t.buffer (t.row * width + t.col) (entry t.color c);
      col = t.col + 1;
    }

unfoldable pub wrap : Terminal → Terminal
wrap t = if leb width t.col then record t { col = 0; row = t.row + 1 } else t

unfoldable pub putchar : ℕ → Terminal → Terminal
putchar c t =
    let t1 = wrap (place c (record t { serial = serial_putchar c t.serial })) in
    update_cursor (if leb height t1.row then scroll t1 else t1)

-- `str` is the bytes before the NUL.
unfoldable pub write : List ℕ → Terminal → Terminal
write [] t = t
write (c ∷ str) t = write str (putchar c t)

unfoldable pub backspace : Terminal → Terminal
backspace t = putchar 8 t
