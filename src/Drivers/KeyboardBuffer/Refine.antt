-- ===== src/Drivers/KeyboardBuffer/Refine.antt =====
-- The buffer of keyboard_buffer.cpp is a queue of at most 255 characters.
use mathlib.Core.Path.{subst}
use nemo_os.Base.{
  ℕ, suc, ◌+◌, ◌-◌, ◌%◌, ◌<◌, ◌≡◌, refl, ap, inl, inr, false, Option, some, List, [], ◌∷◌, ◌++◌,
  arith, ◌==◌, Bool-cases, length, set, get_or, length-set,
}
use nemo_os.Base.Ring.{slots, length-slots, slots-push, slots_of_pos, slots_of_zero}
use nemo_os.Base.Fifo
use nemo_os.Drivers.KeyboardBuffer.{KeyboardBuffer, capacity, push, pop, Call, pushed, popped, run}

pub record IsValid (b : KeyboardBuffer) : Type 0 where
  pub storage : length b.buffer ≡ capacity
  pub head_in : b.head < capacity
  pub tail_in : b.tail < capacity

abbrev pub held : KeyboardBuffer → ℕ
held b = (capacity + b.head - b.tail) % capacity

-- The characters that wait in the buffer, oldest first.
abbrev pub contents : KeyboardBuffer → List ℕ
contents b = slots 0 capacity b.buffer b.tail (held b)

pub push-IsValid : {b : KeyboardBuffer} (c : ℕ) → IsValid b → IsValid (push c b)
unfolding push
push-IsValid {b} c v = ground (arith, length-set b.buffer b.head c)

pub pop-IsValid : {b : KeyboardBuffer} → IsValid b → IsValid (pop b).0
unfolding pop
pop-IsValid v = ground arith

module _ (b : KeyboardBuffer) (v : IsValid b) where
  -- The head lies just behind the last character.
  head-held : (b.tail + held b) % capacity ≡ b.head
  head-held = omega arith

  full_iff : ((b.head + 1) % capacity == b.tail) ≡ (held b == 255)
  full_iff = ground arith

  contents-written :
      (c : ℕ)
      → (held b == 255) ≡ false
      → slots 0 capacity
          (set b.buffer b.head c)
          b.tail
          ((capacity + (b.head + 1) % capacity - b.tail) % capacity)
        ≡ contents b ++ (c ∷ [])
  contents-written c e =
      let one_more : (capacity + (b.head + 1) % capacity - b.tail) % capacity ≡ suc (held b) =
        ground arith in
      rw one_more (
        subst
          (λ i. slots 0 capacity (set b.buffer i c) b.tail (suc (held b)) ≡ contents b ++ (c ∷ []))
          head-held
          (slots-push 0 capacity b.buffer c b.tail (held b) (omega arith) v.tail_in (omega arith)))

  -- `keyboard_buffer_push` appends the character, or drops it when 255 are waiting.
  pub push_refines : (c : ℕ) → contents (push c b) ≡ Fifo.put 255 c (contents b)
  unfolding push Fifo.put
  push_refines c =
      rw (length-slots 0 capacity b.buffer b.tail (held b), full_iff)
        (elim (Bool-cases (held b == 255)) [
          | inl full ↦ rw full
          | inr room ↦ rw room (contents-written c room)
        ])

  -- `keyboard_buffer_pop` takes out the oldest character, or says that there is none.
  pub pop_refines :
      ◌≡◌ {A = List ℕ × Option ℕ} (contents (pop b).0, (pop b).1) (Fifo.get (contents b))
  unfolding pop Fifo.get
  pop_refines = elim (Bool-cases (b.tail == b.head)) [
    | inl none_left ↦
        rw (none_left, slots_of_zero 0 capacity b.buffer b.tail (held b) (ground arith))
    | inr some_left ↦
        rw (some_left, slots_of_pos 0 capacity b.buffer b.tail (held b) (ground arith))
          (ap
            (λ k. (
              slots 0 capacity b.buffer ((b.tail + 1) % capacity) k,
              some (get_or b.buffer b.tail 0),
            ))
            (ground arith))
  ]

-- The queue's answers to the same calls.
unfoldable pub run_fifo : List ℕ → List Call → List (Option ℕ)
run_fifo q [] = []
run_fifo q (pushed c ∷ calls) = run_fifo (Fifo.put 255 c q) calls
run_fifo q (popped ∷ calls) = let (q', out) = Fifo.get q in out ∷ run_fifo q' calls

-- However pushes and pops of a valid buffer follow each other, the pops return what those of a
-- first-in first-out queue of at most 255 characters return that starts with the same contents and
-- drops what comes when it is full.
pub run_refines :
    (calls : List Call) {b : KeyboardBuffer} → IsValid b → run b calls ≡ run_fifo (contents b) calls
unfolding run run_fifo
run_refines [] v = refl
run_refines (pushed c ∷ calls) v = rw (run_refines calls (push-IsValid c v), push_refines _ v c)
run_refines (popped ∷ calls) v = rw (run_refines calls (pop-IsValid v), ← pop_refines _ v)
