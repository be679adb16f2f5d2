-- ===== src/User/Install.antt =====
-- src/user/user_mode.cpp: what `user_install_into_space` maps.
use nemo_os.Base.{
  ℕ, ◌+◌, ◌*◌, ◌/◌, ◌%◌, ◌^◌, ◌<◌, ◌≡◌, ◌≢◌, refl, sym, ap, ◌∙◌, subst, inl, inr, Bool, true, false,
  ◌&&◌, arith, ◌==◌, if◌then◌else◌, Bool-cases,
}
use nemo_os.Base.Int.{ℤ}
use nemo_os.Memory.Pmm.{Pmm, page_size, alloc_page}
use nemo_os.Memory.Pmm.Inv.{is_used}
use nemo_os.Memory.Pmm.Alloc.{Allocated, full, page, alloc_page-Allocated}
use nemo_os.Memory.Vmm.{Mmu, table_flags, is_user_entry, is_present, frame_of, pd_index, vmm_map}
use nemo_os.Memory.Vmm.Inv.{Grows, leaf, IsSpace, IsReady}
use nemo_os.Memory.Vmm.Map.{Directory, Changed, Mapped, failed, mapped, vmm_map-Mapped}
use nemo_os.User.{user_code_addr, user_stack_addr, code_flags, stack_flags, user_install_into_space}

-- A space stays well formed while pages are taken.
IsSpace-Grows :
    (p q : Pmm) (word : ℕ → ℕ) (space : ℕ) → IsSpace p word space → Grows p q → IsSpace q word space
IsSpace-Grows p q word space s g = record {
  aligned = s.aligned;
  live = g.0 (space / 4096) s.live;
  table_live = λ i lt there. g.0 (word (space + 4 * i) / 4096) (s.table_live i lt there);
  apart = s.apart;
  distinct = s.distinct;
}

-- May a program read, or write, at an address? The processor wants the flags present and user, and
-- writable for a write, in the directory's entry and in the table's.
abbrev pub may_read : (ℕ → ℕ) → ℕ → ℕ → Bool
may_read word space virt =
    is_present (word (space + 4 * pd_index virt))
    && is_user_entry (word (space + 4 * pd_index virt))
    && is_present (leaf word space virt)
    && is_user_entry (leaf word space virt)

abbrev pub is_writable : ℕ → Bool
is_writable e = e / 2 % 2 == 1

abbrev pub may_write : (ℕ → ℕ) → ℕ → ℕ → Bool
may_write word space virt =
    may_read word space virt
    && is_writable (word (space + 4 * pd_index virt))
    && is_writable (leaf word space virt)

-- The table for the program's addresses, if there is one, is open to programs.
abbrev pub IsOpen : (ℕ → ℕ) → ℕ → Type 0
IsOpen word space =
    is_present (word (space + 4 * pd_index user_code_addr)) ≡ true
    → word (space + 4 * pd_index user_code_addr) % 8 ≡ 7

opened :
    {before after : ℕ}
    → (is_present before ≡ true → before % 8 ≡ 7)
    → Directory table_flags before after
    → after % 8 ≡ 7
opened {before} {after} h d = elim (Bool-cases (is_present before)) [
  | inl there ↦ ap (λ x. x % 8) (d.0 there) ∙ h there
  | inr absent ↦ omega (arith, d.1 absent)
]

code_access-from :
    (word : ℕ → ℕ) (space phys w : ℕ)
    → word (space + 4 * pd_index w) % 8 ≡ 7
    → leaf word space w ≡ frame_of phys + code_flags
    → (may_read word space w ≡ true) × (may_write word space w ≡ false)
code_access-from word space phys w d l = (ground (arith, d, l), ground (arith, d, l))

stack_access-from :
    (word : ℕ → ℕ) (space n w : ℕ)
    → word (space + 4 * pd_index w) % 8 ≡ 7
    → leaf word space w ≡ n * page_size + stack_flags
    → may_write word space w ≡ true
stack_access-from word space n w d l = ground (arith, d, l)

-- Both pages are there; that of the stack, `n`, was not in use before.
pub record Complete (m : Mmu) (space user_code_phys n : ℕ) (m1 : Mmu) : Type 0 where
  pub ready : IsReady m1.pmm
  pub space_kept : IsSpace m1.pmm m1.word space
  pub fresh : is_used m.pmm n ≡ false
  pub taken : is_used m1.pmm n ≡ true
  pub code_here :
      (w : ℕ)
      → w / 4096 ≡ user_code_addr / 4096
      → leaf m1.word space w ≡ frame_of user_code_phys + code_flags
  pub stack_here :
      (w : ℕ)
      → w / 4096 ≡ user_stack_addr / 4096
      → leaf m1.word space w ≡ n * page_size + stack_flags
  pub code_access :
      (w : ℕ)
      → w / 4096 ≡ user_code_addr / 4096
      → (may_read m1.word space w ≡ true) × (may_write m1.word space w ≡ false)
  pub stack_access : (w : ℕ) → w / 4096 ≡ user_stack_addr / 4096 → may_write m1.word space w ≡ true
  pub elsewhere :
      (w : ℕ)
      → w < 2 ^ 32
      → w / 4096 ≢ user_code_addr / 4096
      → w / 4096 ≢ user_stack_addr / 4096
      → leaf m1.word space w ≡ leaf m.word space w

-- What `user_install_into_space` may leave.
pub data Installed (m : Mmu) (space user_code_phys : ℕ) : Mmu → Type 0 where
  no_table :
      ((j : ℕ) → j < m.pmm.total_pages → is_used m.pmm j ≡ true)
      → Installed m space user_code_phys m
  no_stack :
      (m1 : Mmu)
      → Changed m space user_code_addr (frame_of user_code_phys + code_flags) m1
      → ((j : ℕ) → j < m1.pmm.total_pages → is_used m1.pmm j ≡ true)
      → Installed m space user_code_phys m1
  complete :
      (n : ℕ) (m1 : Mmu)
      → Complete m space user_code_phys n m1
      → Installed m space user_code_phys m1

-- The rest of the function after the first `vmm_map`.
abbrev stack_from : ℕ → Mmu → Pmm × ℕ → Mmu
stack_from space m1 (p, stack_phys) =
    let m2 = record m1 { pmm = p } in
    if stack_phys == 0 then m2 else (vmm_map space user_stack_addr stack_phys stack_flags m2).0

full_stays :
    (space : ℕ) (m : Mmu) {r : Pmm × ℕ}
    → ((j : ℕ) → j < m.pmm.total_pages → is_used m.pmm j ≡ true)
    → Allocated m.pmm r
    → stack_from space m r ≡ m
full_stays space m all (full _) = refl
full_stays space m all (page n h free below q w bits used total) =
    absurd (ground (arith, all n h, free))

-- The second `vmm_map` finds the table that the first one used.
not_absent :
    (word : ℕ → ℕ) (space e : ℕ)
    → leaf word space user_code_addr ≡ e
    → 0 < e
    → is_present (word (space + 4 * pd_index user_stack_addr)) ≡ false
    → ⊥
unfolding leaf
not_absent word space e here large absent = ground (arith, here, absent)

-- The state after the second `vmm_map`, `q` being the pages after the stack's page `n` is taken.
second-Complete :
    {m m1 : Mmu} {space user_code_phys : ℕ} (n : ℕ) (q : Pmm) {r : Mmu × ℤ}
    → IsOpen m.word space
    → Changed m space user_code_addr (frame_of user_code_phys + code_flags) m1
    → is_used m1.pmm n ≡ false
    → is_used q n ≡ true
    → Mapped (record m1 { pmm = q }) space user_stack_addr (n * page_size) stack_flags r
    → Complete m space user_code_phys n r.0
second-Complete {m} {m1} {space} {user_code_phys} n q o c free used (failed all absent) = absurd (
    not_absent m1.word space (frame_of user_code_phys + code_flags) (c.here user_code_addr refl)
      (omega arith) absent)
second-Complete {m} {m1} {space} {user_code_phys} n q o c free used (mapped m3 d) = record {
  ready = d.ready;
  space_kept = d.space_kept;
  fresh = elim (Bool-cases (is_used m.pmm n)) [
    | inl u ↦ absurd (ground (arith, c.grown.0 n u, free))
    | inr u ↦ u
  ];
  taken = d.grown.0 n used;
  code_here = λ w h. d.elsewhere w (omega arith) (λ e. omega arith) ∙ c.here w h;
  stack_here = λ w h. d.here w h ∙ omega arith;
  code_access = λ w h.
      code_access-from m3.word space user_code_phys w
        (rights m3.word (pd_index w) (omega arith) both)
        (d.elsewhere w (omega arith) (λ e. omega arith) ∙ c.here w h);
  stack_access = λ w h.
      stack_access-from m3.word space n w (rights m3.word (pd_index w) (omega arith) both)
        (d.here w h ∙ omega arith);
  elsewhere = λ w small a b. d.elsewhere w small b ∙ c.elsewhere w small a;
}
  where
    rights :
        (word : ℕ → ℕ) (i : ℕ)
        → i ≡ pd_index user_code_addr
        → word (space + 4 * pd_index user_code_addr) % 8 ≡ 7
        → word (space + 4 * i) % 8 ≡ 7
    rights word i e h = ap (λ j. word (space + 4 * j) % 8) e ∙ h

    both : m3.word (space + 4 * pd_index user_code_addr) % 8 ≡ 7
    both = opened (λ _. opened o c.directory) d.directory

stack_from-Installed :
    {m m1 : Mmu} {space : ℕ} (user_code_phys : ℕ) {r : Pmm × ℕ}
    → IsOpen m.word space
    → Changed m space user_code_addr (frame_of user_code_phys + code_flags) m1
    → Allocated m1.pmm r
    → Installed m space user_code_phys (stack_from space m1 r)
stack_from-Installed {m} {m1} user_code_phys o c (full all) = no_stack m1 c all
stack_from-Installed {m} {m1} {space} user_code_phys o c (page n h free below q w bits used total) =
    let grown : Grows m1.pmm q = (λ j u. rw (bits j) (ground arith), total) in
    let taken : is_used q n ≡ true = rw (bits n) (ground arith) in
    let nonzero : (n * page_size == 0) ≡ false =
      ground (arith, ap (is_used m1.pmm) {x = n} {y = 0}, c.ready.null_used) in
    let after : IsReady q = record { valid = w; null_used = grown.0 0 c.ready.null_used } in
    rw nonzero (
      complete n _ (
        second-Complete n q o c free taken (
          vmm_map-Mapped {m = record m1 { pmm = q }} user_stack_addr (n * page_size) stack_flags
            after (IsSpace-Grows m1.pmm q m1.word space c.space_kept grown) (omega arith))))

first-Installed :
    {m : Mmu} {space : ℕ} (user_code_phys : ℕ) {r : Mmu × ℤ}
    → IsReady m.pmm
    → IsOpen m.word space
    → Mapped m space user_code_addr user_code_phys code_flags r
    → Installed m space user_code_phys (stack_from space r.0 (alloc_page r.0.pmm))
first-Installed {m} {space} user_code_phys v o (failed all absent) =
    subst (Installed m space user_code_phys)
      (sym (full_stays space m all (alloc_page-Allocated v.valid))) (no_table all)
first-Installed user_code_phys v o (mapped m1 c) =
    stack_from-Installed user_code_phys o c (alloc_page-Allocated c.ready.valid)

-- In a well-formed space whose table for the program's addresses, if it has one, is present,
-- writable and open to programs, with the program's page given, `user_install_into_space` maps the
-- program so that a program may read it but not write to it, and a page that was not in use before
-- so that a program may write to it, for the stack; every other address leads to what it led to
-- before. Unless pages run out: then it changes nothing, or maps the program alone.
pub user_install_into_space-Installed :
    (m : Mmu) (space user_code_phys : ℕ)
    → IsReady m.pmm
    → IsSpace m.pmm m.word space
    → IsOpen m.word space
    → space ≢ 0
    → user_code_phys ≢ 0
    → Installed m space user_code_phys (user_install_into_space space user_code_phys m)
unfolding user_install_into_space
user_install_into_space-Installed m space user_code_phys v s o some_space some_code =
    let a : (space == 0) ≡ false = ground arith in
    let b : (user_code_phys == 0) ≡ false = ground arith in
    rw (a, b)
      (first-Installed user_code_phys v o (
        vmm_map-Mapped {m = m} {space = space} user_code_addr user_code_phys code_flags v s
          (omega arith)))
