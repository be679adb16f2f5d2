-- ===== src/Drivers/Keyboard/Tests.antt =====
-- Keystrokes through keyboard.cpp, and its theorems at them.
use nemo_os.Base.{ℕ, ◌≡◌, refl, true, List, [], ◌∷◌, replicate}
use nemo_os.Drivers.Keyboard.{lower, upper, init, scancode_to_ascii, irq_handler}
use nemo_os.Drivers.KeyboardBuffer.{KeyboardBuffer, push}

abbrev fresh_buffer : KeyboardBuffer
fresh_buffer = record { buffer = replicate 256 0; head = 0; tail = 0 }

-- Shift down, `a`, shift up.
abbrev capital_a : List ℕ
capital_a = 0x2A ∷ 0x1E ∷ 0xAA ∷ []

press_a : scancode_to_ascii 0x1E init ≡ (init, b'a')
unfolding scancode_to_ascii lower
press_a = refl

-- Caps lock also selects the second table for the digits.
caps_and_digit : (scancode_to_ascii 0x02 (record init { caps_lock = true })).1 ≡ b'!'
unfolding scancode_to_ascii upper
caps_and_digit = refl

irq_stores : (irq_handler 0x1E (init, fresh_buffer)).1.head ≡ 1
unfolding irq_handler push lower
irq_stores = refl
