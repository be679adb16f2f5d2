-- ===== src/Drivers/Keyboard/Decode.antt =====
-- What keyboard.cpp makes of each scancode. The laws hold at every byte by evaluation.
use Prim.Native.Nat.{bit_and}
use nemo_os.Base.{
  ℕ, ◌-◌, ◌<◌, ◌≡◌, refl, ap, ◌∙◌, Bool, true, false, ◌&&◌, ◌||◌, not, List, [], ◌∷◌, arith, ltb,
  leb, ◌==◌, if◌then◌else◌, get_or,
}
use nemo_os.Base.Bits.{holds_under, holds_under-at, same, same_eq}
use nemo_os.Drivers.Keyboard.{Keyboard, sc_shift_l, sc_shift_r, sc_ctrl_l, sc_alt_l, sc_caps}
use nemo_os.Drivers.Keyboard.{lower, upper, scancode_to_ascii, run}

-- Is the key of a scancode a shift key?
abbrev pub is_shift : ℕ → Bool
is_shift make = (make == sc_shift_l) || (make == sc_shift_r)

-- The shift state that a scancode leaves, said in numbers: a shift key's make code sets it, its
-- break code (128 more) clears it, and no other scancode touches it.
abbrev pub shift_after : ℕ → Bool → Bool
shift_after sc held =
    if is_shift sc then true else if leb 128 sc && is_shift (sc - 128) then false else held

-- The same for caps lock, which its make code toggles.
abbrev pub caps_after : ℕ → Bool → Bool
caps_after sc on = if sc == sc_caps then not on else on

-- Bit 7 of a byte, and the low seven bits, as numbers.
abbrev break_law : ℕ → Bool
break_law sc =
    same (not (bit_and sc 0x80 == 0)) (leb 128 sc)
    && (not (leb 128 sc) || (bit_and sc 0x7F == (sc - 128)))

break_table : holds_under break_law 256 ≡ true
unfolding holds_under same
break_table = refl

high_bit : (sc : ℕ) → sc < 256 → (not (bit_and sc 0x80 == 0)) ≡ leb 128 sc
high_bit sc h =
    let e = holds_under-at break_law 256 sc h break_table in
    same_eq (not (bit_and sc 0x80 == 0)) (leb 128 sc) (ground arith)

low_bits : (sc : ℕ) → sc < 256 → leb 128 sc ≡ true → bit_and sc 0x7F ≡ sc - 128
low_bits sc h high = let e = holds_under-at break_law 256 sc h break_table in ground arith

-- The state after one scancode.
module _ (sc : ℕ) (h : sc < 256) (k : Keyboard) where
  shift-scancode : (scancode_to_ascii sc k).0.shift_pressed ≡ shift_after sc k.shift_pressed
  unfolding scancode_to_ascii
  shift-scancode = rw (high_bit sc h) (ground (arith, low_bits sc h))

  caps-scancode : (scancode_to_ascii sc k).0.caps_lock ≡ caps_after sc k.caps_lock
  unfolding scancode_to_ascii
  caps-scancode = rw (high_bit sc h) (ground (arith, low_bits sc h))

-- Every scancode of a sequence is a byte.
abbrev pub AreBytes : List ℕ → Type 0
AreBytes [] = Unit
AreBytes (sc ∷ scs) = (sc < 256) × AreBytes scs

abbrev pub fold : {S : Type 0} → (ℕ → S → S) → S → List ℕ → S
fold f s [] = s
fold f s (sc ∷ scs) = fold f (f sc s) scs

-- After any sequence of scancodes the shift state is that of the last make or break code of a
-- shift key, and caps lock is on exactly if its make code came an odd number of times since it
-- was off; no other code touches either.
pub run-modifiers :
    (scs : List ℕ) (k : Keyboard)
    → AreBytes scs
    → ((run k scs).shift_pressed ≡ fold shift_after k.shift_pressed scs)
      × ((run k scs).caps_lock ≡ fold caps_after k.caps_lock scs)
unfolding run
run-modifiers [] k h = (refl, refl)
run-modifiers (sc ∷ scs) k h =
    let rest = run-modifiers scs (scancode_to_ascii sc k).0 h.1 in
    (
      rest.0 ∙ ap (λ b. fold shift_after b scs) (shift-scancode sc h.0 k),
      rest.1 ∙ ap (λ b. fold caps_after b scs) (caps-scancode sc h.0 k),
    )

-- Is a character a small letter?
abbrev pub is_letter : ℕ → Bool
is_letter c = leb b'a' c && leb c b'z'

abbrev letter_law : ℕ → Bool
letter_law sc =
    not (is_letter (get_or lower sc 0))
    || ((get_or upper sc 0 == (get_or lower sc 0 - 32))
        && not (is_shift sc)
        && not (sc == sc_caps)
        && not (sc == sc_ctrl_l)
        && not (sc == sc_alt_l)
        && ltb sc 128)

letter_table : holds_under letter_law 256 ≡ true
unfolding holds_under lower upper
letter_table = refl

letter_facts :
    (sc : ℕ)
    → sc < 256
    → is_letter (get_or lower sc 0) ≡ true
    → (get_or upper sc 0 ≡ get_or lower sc 0 - 32)
      × (is_shift sc ≡ false)
      × ((sc == sc_caps) ≡ false)
      × ((sc == sc_ctrl_l) ≡ false)
      × ((sc == sc_alt_l) ≡ false)
      × (leb 128 sc ≡ false)
letter_facts sc h e = let t = holds_under-at letter_law 256 sc h letter_table in ground arith

-- On a key whose plain character is a small letter, the driver returns that letter, or the capital
-- letter if shift or caps lock is on, and leaves its state alone.
pub decode_letter :
    (sc : ℕ) (k : Keyboard)
    → sc < 256
    → is_letter (get_or lower sc 0) ≡ true
    → scancode_to_ascii sc k
      ≡ (k, if k.shift_pressed || k.caps_lock then get_or lower sc 0 - 32 else get_or lower sc 0)
unfolding scancode_to_ascii
decode_letter sc k h e =
    let (big, shift, caps, ctrl, alt, small) = letter_facts sc h e in
    rw (high_bit sc h, small, caps, shift, ctrl, alt) (ground (arith, big))
