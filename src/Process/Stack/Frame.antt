-- ===== src/Process/Stack/Frame.antt =====
-- src/process/process.cpp: what a frame holds.
use nemo_os.Base.{
  ℕ, zero, suc, ◌+◌, ◌-◌, ◌*◌, ◌≤◌, ◌<◌, ◌≡◌, refl, sym, ap, ◌∙◌, true, List, [], ◌∷◌, ◌++◌, arith,
  ◌==◌, if◌then◌else◌, length, replicate,
}
use nemo_os.Process.Stack.{push, push_registers, build_user_frame, build_kernel_frame}

-- The `n` words from an address on, as `popa` and `iret` take them.
unfoldable pub words_at : (ℕ → ℕ) → ℕ → ℕ → List ℕ
words_at word a zero = []
words_at word a (suc n) = word a ∷ words_at word (a + 4) n

-- A word below the stack pointer is not part of what lies above.
words_at-below :
    (n a b v : ℕ) (word : ℕ → ℕ)
    → b < a
    → words_at (λ c. if c == b then v else word c) a n ≡ words_at word a n
unfolding words_at
words_at-below zero a b v word h = refl
words_at-below (suc n) a b v word h =
    ground (arith, words_at-below n (a + 4) b v word (omega arith))

-- A push puts its value in front of the words on the stack.
words_at-push :
    (v n : ℕ) (s : ℕ × (ℕ → ℕ))
    → 4 ≤ s.0
    → words_at (push v s).1 (push v s).0 (suc n) ≡ v ∷ words_at s.1 s.0 n
unfolding words_at push
words_at-push v n (sp, word) h =
    let up : sp - 4 + 4 ≡ sp = omega arith in
    let here : (sp - 4 == sp - 4) ≡ true = ground arith in
    rw (up, here, words_at-below n sp (sp - 4) v word (omega arith))

push-pointer : (v : ℕ) (s : ℕ × (ℕ → ℕ)) → (push v s).0 ≡ s.0 - 4
unfolding push
push-pointer v (sp, word) = refl

-- Above the stack pointer a push changes nothing.
push-above : (v a : ℕ) (s : ℕ × (ℕ → ℕ)) → s.0 ≤ a → 4 ≤ s.0 → (push v s).1 a ≡ s.1 a
unfolding push
push-above v a (sp, word) h k = ground arith

-- Several pushes, one after the other.
abbrev pub push_all : List ℕ → ℕ × (ℕ → ℕ) → ℕ × (ℕ → ℕ)
push_all [] s = s
push_all (v ∷ vs) s = push_all vs (push v s)

abbrev pub rev_onto : List ℕ → List ℕ → List ℕ
rev_onto [] xs = xs
rev_onto (v ∷ vs) xs = rev_onto vs (v ∷ xs)

pub push_all-words :
    (vs : List ℕ) (s : ℕ × (ℕ → ℕ)) (n : ℕ)
    → 4 * length vs ≤ s.0
    → words_at (push_all vs s).1 (push_all vs s).0 (length vs + n)
      ≡ rev_onto vs (words_at s.1 s.0 n)
push_all-words [] s n h = ap (λ m. words_at s.1 s.0 m) (omega arith)
push_all-words (v ∷ vs) s n h =
    ap (λ m. words_at (push_all vs (push v s)).1 (push_all vs (push v s)).0 m) (omega arith)
    ∙ push_all-words vs (push v s) (suc n) (omega (arith, push-pointer v s))
    ∙ ap (λ xs. rev_onto vs xs) (words_at-push v n s (omega arith))

pub push_all-pointer : (vs : List ℕ) (s : ℕ × (ℕ → ℕ)) → (push_all vs s).0 ≡ s.0 - 4 * length vs
push_all-pointer [] s = omega arith
push_all-pointer (v ∷ vs) s = omega (arith, push_all-pointer vs (push v s), push-pointer v s)

push_all-above :
    (vs : List ℕ) (s : ℕ × (ℕ → ℕ)) (a : ℕ)
    → s.0 ≤ a
    → 4 * length vs ≤ s.0
    → (push_all vs s).1 a ≡ s.1 a
push_all-above [] s a h k = refl
push_all-above (v ∷ vs) s a h k =
    push_all-above vs (push v s) a (omega (arith, push-pointer v s))
      (omega (arith, push-pointer v s))
    ∙ push-above v a s h (omega arith)

module _ (entry user_esp sp : ℕ) (word : ℕ → ℕ) where
  -- The frame of a user process takes 52 bytes below the stack pointer and leaves what lies above:
  -- `popa` reads eight zeros from it, and `iret` then reads the entry point, the user code segment,
  -- the flags with interrupts on, the user's stack pointer and the user stack segment.
  pub build_user_frame-words :
      52 ≤ sp
      → ((build_user_frame entry user_esp (sp, word)).0 ≡ sp - 52)
        × (words_at (build_user_frame entry user_esp (sp, word)).1 (sp - 52) 13
            ≡ replicate 8 0 ++ (entry ∷ 0x1B ∷ 0x202 ∷ user_esp ∷ 0x23 ∷ []))
        × ((a : ℕ) → sp ≤ a → (build_user_frame entry user_esp (sp, word)).1 a ≡ word a)
  unfolding build_user_frame push_registers words_at
  build_user_frame-words h =
      let vs = 0x23 ∷ user_esp ∷ 0x202 ∷ 0x1B ∷ entry ∷ replicate 8 0 in
      let top = push_all-pointer vs (sp, word) in
      (
        top,
        ap (λ a. words_at (push_all vs (sp, word)).1 a 13) (sym top)
            ∙ push_all-words vs (sp, word) 0 h,
        λ a k. push_all-above vs (sp, word) a k h,
      )

  -- The frame of a kernel process likewise takes 44 bytes; `iret` finds the entry point, the kernel
  -- code segment and the flags.
  pub build_kernel_frame-words :
      44 ≤ sp
      → ((build_kernel_frame entry (sp, word)).0 ≡ sp - 44)
        × (words_at (build_kernel_frame entry (sp, word)).1 (sp - 44) 11
            ≡ replicate 8 0 ++ (entry ∷ 0x08 ∷ 0x202 ∷ []))
        × ((a : ℕ) → sp ≤ a → (build_kernel_frame entry (sp, word)).1 a ≡ word a)
  unfolding build_kernel_frame push_registers words_at
  build_kernel_frame-words h =
      let vs = 0x202 ∷ 0x08 ∷ entry ∷ replicate 8 0 in
      let top = push_all-pointer vs (sp, word) in
      (
        top,
        ap (λ a. words_at (push_all vs (sp, word)).1 a 11) (sym top)
            ∙ push_all-words vs (sp, word) 0 h,
        λ a k. push_all-above vs (sp, word) a k h,
      )
