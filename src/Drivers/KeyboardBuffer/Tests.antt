-- ===== src/Drivers/KeyboardBuffer/Tests.antt =====
-- The buffer of keyboard_buffer.cpp near its wrap, and its theorem there.
use nemo_os.Base.{◌≡◌, refl, none, some, List, [], ◌∷◌, ◌++◌, arith, replicate}
use nemo_os.Drivers.KeyboardBuffer.{KeyboardBuffer, Call, pushed, popped, push, pop, run}
use nemo_os.Drivers.KeyboardBuffer.Refine.{IsValid, contents, run_fifo, run_refines}

-- `x` waits in the last slot.
abbrev at_end : KeyboardBuffer
at_end = record { buffer = replicate 255 0 ++ (b'x' ∷ []); head = 0; tail = 255 }

at_end-IsValid : IsValid at_end
at_end-IsValid = record { storage = refl; head_in = omega arith; tail_in = omega arith }

abbrev script : List Call
script = pushed b'y' ∷ popped ∷ popped ∷ popped ∷ []

run-script : run at_end script ≡ some b'x' ∷ some b'y' ∷ none ∷ []
unfolding run push pop
run-script = refl

run_refines_example : run at_end script ≡ run_fifo (contents at_end) script
run_refines_example = run_refines script at_end-IsValid
