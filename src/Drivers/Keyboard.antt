-- ===== src/Drivers/Keyboard.antt =====
-- src/drivers/keyboard.cpp: scancodes to characters, with the state of the modifier keys, and the
-- keyboard interrupt of src/interrupts/keyboard_irq.cpp, which reads a scancode from its port.
pub mod Decode
mod Tests
use Prim.Native.Nat.{bit_and}
use nemo_os.Base.{ℕ, Bool, true, false, ◌||◌, not, List, [], ◌∷◌, leb, ◌==◌, if◌then◌else◌, get_or}
use nemo_os.Drivers.KeyboardBuffer.{KeyboardBuffer, push}

-- The static variables.
pub record Keyboard : Type 0 where
  pub shift_pressed : Bool
  pub ctrl_pressed : Bool
  pub alt_pressed : Bool
  pub caps_lock : Bool

abbrev pub sc_shift_l : ℕ
sc_shift_l = 0x2A

abbrev pub sc_shift_r : ℕ
sc_shift_r = 0x36

abbrev pub sc_ctrl_l : ℕ
sc_ctrl_l = 0x1D

abbrev pub sc_alt_l : ℕ
sc_alt_l = 0x38

abbrev pub sc_caps : ℕ
sc_caps = 0x3A

-- The entries of the table `lower` up to the last that is not 0; the rest are 0.
pub lower : List ℕ
lower =
    0 ∷ 27 ∷ 49 ∷ 50 ∷ 51 ∷ 52 ∷ 53 ∷ 54 ∷ 55 ∷ 56 ∷ 57 ∷ 48 ∷ 45 ∷ 61 ∷ 8 ∷ 9 ∷ 113 ∷ 119 ∷ 101
    ∷ 114 ∷ 116 ∷ 121 ∷ 117 ∷ 105 ∷ 111 ∷ 112 ∷ 91 ∷ 93 ∷ 10 ∷ 0 ∷ 97 ∷ 115 ∷ 100 ∷ 102 ∷ 103 ∷ 104
    ∷ 106 ∷ 107 ∷ 108 ∷ 59 ∷ 39 ∷ 96 ∷ 0 ∷ 92 ∷ 122 ∷ 120 ∷ 99 ∷ 118 ∷ 98 ∷ 110 ∷ 109 ∷ 44 ∷ 46 ∷ 47
    ∷ 0 ∷ 42 ∷ 0 ∷ 32 ∷ []

pub upper : List ℕ
upper =
    0 ∷ 27 ∷ 33 ∷ 64 ∷ 35 ∷ 36 ∷ 37 ∷ 94 ∷ 38 ∷ 42 ∷ 40 ∷ 41 ∷ 95 ∷ 43 ∷ 8 ∷ 9 ∷ 81 ∷ 87 ∷ 69 ∷ 82
    ∷ 84 ∷ 89 ∷ 85 ∷ 73 ∷ 79 ∷ 80 ∷ 123 ∷ 125 ∷ 10 ∷ 0 ∷ 65 ∷ 83 ∷ 68 ∷ 70 ∷ 71 ∷ 72 ∷ 74 ∷ 75 ∷ 76
    ∷ 58 ∷ 34 ∷ 126 ∷ 0 ∷ 124 ∷ 90 ∷ 88 ∷ 67 ∷ 86 ∷ 66 ∷ 78 ∷ 77 ∷ 60 ∷ 62 ∷ 63 ∷ 0 ∷ 42 ∷ 0 ∷ 32
    ∷ []

-- The branch of `scancode_to_ascii` for a released key.
abbrev pub release : ℕ → Keyboard → Keyboard
release make k = record {
  shift_pressed = if (make == sc_shift_l) || (make == sc_shift_r) then false else k.shift_pressed;
  ctrl_pressed = if make == sc_ctrl_l then false else k.ctrl_pressed;
  alt_pressed = if make == sc_alt_l then false else k.alt_pressed;
  caps_lock = k.caps_lock;
}

-- The two results are the new state and the character, 0 for none.
pub scancode_to_ascii : ℕ → Keyboard → Keyboard × ℕ
scancode_to_ascii scancode k =
    if not (bit_and scancode 0x80 == 0)
    then (release (bit_and scancode 0x7F) k, 0)
    else if scancode == sc_caps
    then (record k { caps_lock = not k.caps_lock }, 0)
    else if (scancode == sc_shift_l) || (scancode == sc_shift_r)
    then (record k { shift_pressed = true }, 0)
    else if scancode == sc_ctrl_l
    then (record k { ctrl_pressed = true }, 0)
    else if scancode == sc_alt_l
    then (record k { alt_pressed = true }, 0)
    else if leb 128 scancode
    then (k, 0)
    else (k, get_or (if k.shift_pressed || k.caps_lock then upper else lower) scancode 0)

-- `keyboard_irq_handler`, given the scancode that port 0x60 holds; the write to the interrupt
-- controller is left out.
pub irq_handler : ℕ → Keyboard × KeyboardBuffer → Keyboard × KeyboardBuffer
unfolding scancode_to_ascii
irq_handler scancode (k, b) =
    let (k', c) = scancode_to_ascii scancode k in (k', if not (c == 0) then push c b else b)

-- `keyboard_init`
abbrev pub init : Keyboard
init = record {
  shift_pressed = false;
  ctrl_pressed = false;
  alt_pressed = false;
  caps_lock = false;
}

-- The interrupts for a sequence of scancodes.
pub run : Keyboard → List ℕ → Keyboard
run k [] = k
run k (sc ∷ scs) = run (scancode_to_ascii sc k).0 scs
