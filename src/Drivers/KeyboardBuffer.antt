-- ===== src/Drivers/KeyboardBuffer.antt =====
-- src/drivers/keyboard_buffer.cpp: the circular buffer between the keyboard interrupt, which
-- pushes, and its readers, which pop with interrupts off. So each call is one step.
pub mod Refine
mod Tests
use nemo_os.Base.{ℕ, ◌+◌, ◌%◌, Option, none, some, List, [], ◌∷◌, ◌==◌, if◌then◌else◌, set, get_or}

abbrev pub capacity : ℕ
capacity = 256

-- The static variables.
pub record KeyboardBuffer : Type 0 where
  pub buffer : List ℕ
  pub head : ℕ
  pub tail : ℕ

unfoldable pub push : ℕ → KeyboardBuffer → KeyboardBuffer
push c b =
    let next = (b.head + 1) % capacity in
    if next == b.tail then b else record b { buffer = set b.buffer b.head c; head = next }

-- `none` is the result `false`, when `*c` is not written.
unfoldable pub pop : KeyboardBuffer → KeyboardBuffer × Option ℕ
pop b =
    if b.tail == b.head
    then (b, none)
    else (record b { tail = (b.tail + 1) % capacity }, some (get_or b.buffer b.tail 0))

-- A call of the interrupt handler, or of a reader.
pub data Call : Type 0 where
  pushed : ℕ → Call
  popped : Call

-- The calls in the order in which they happen, with what each pop returns.
pub run : KeyboardBuffer → List Call → List (Option ℕ)
run b [] = []
run b (pushed c ∷ calls) = run (push c b) calls
run b (popped ∷ calls) = let (b', out) = pop b in out ∷ run b' calls
