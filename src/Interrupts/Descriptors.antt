-- ===== src/Interrupts/Descriptors.antt =====
-- src/interrupts/: what the processor reads from the tables.

use nemo_os.Base.{
  ℕ, zero, suc, ◌+◌, ◌*◌, ◌/◌, ◌%◌, ◌^◌, ◌≤◌, ◌<◌, ◌≡◌, ◌≢◌, refl, ◌∙◌, inl, inr, true, ◌&&◌, List,
  arith, ltb, leb, ◌==◌, if◌then◌else◌, Bool-cases, length, get_or, length-set, get_or-set,
}
use nemo_os.Interrupts.{
  GdtEntry, gdt_set_gate, IdtEntry, idt_set_gate, default_gates, idt_init, Handlers,
}

-- The base and the limit of a segment, and the target of a gate, as the processor puts them
-- together.
abbrev pub base_of : GdtEntry → ℕ
base_of e = e.base_low + 2 ^ 16 * e.base_middle + 2 ^ 24 * e.base_high

abbrev pub limit_of : GdtEntry → ℕ
limit_of e = e.limit_low + 2 ^ 16 * (e.granularity % 16)

abbrev pub target_of : IdtEntry → ℕ
target_of e = e.base_low + 2 ^ 16 * e.base_high

abbrev segment : ℕ → ℕ → ℕ → ℕ → GdtEntry
segment base limit access gran = record {
  limit_low = limit % 2 ^ 16;
  base_low = base % 2 ^ 16;
  base_middle = base / 2 ^ 16 % 256;
  access = access;
  granularity = limit / 2 ^ 16 % 16 + gran / 16 % 16 * 16;
  base_high = base / 2 ^ 24 % 256;
}

-- A segment that `gdt_set_gate` has described is read back by the processor: its base, the lower 20
-- bits of its limit, the access byte and the four flags; the other segments are as before.
pub gdt_set_gate-segment :
    (num base limit access gran j : ℕ) (gdt : List GdtEntry) (d : GdtEntry)
    → num < length gdt
    → base < 2 ^ 32
    → let e = get_or (gdt_set_gate num base limit access gran gdt) num d in
      (base_of e ≡ base)
      × (limit_of e ≡ limit % 2 ^ 20)
      × (e.access ≡ access)
      × (e.granularity / 16 ≡ gran / 16 % 16)
      × (j ≢ num → get_or (gdt_set_gate num base limit access gran gdt) j d ≡ get_or gdt j d)
unfolding gdt_set_gate
gdt_set_gate-segment num base limit access gran j gdt d inside small =
    let here : get_or (gdt_set_gate num base limit access gran gdt) num d
        ≡ segment base limit access gran =
      get_or-set gdt num num (segment base limit access gran) d ∙ ground (arith, inside) in
    rw here (
      omega arith,
      omega arith,
      refl,
      omega arith,
      λ ne. get_or-set gdt num j (segment base limit access gran) d ∙ ground (arith, ne),
    )

-- The handler of each of the 256 interrupts.
abbrev pub handler_of : Handlers → ℕ → ℕ
handler_of h n =
    if n == 0
    then h.isr0
    else if n == 13
    then h.gp_stub
    else if n == 14
    then h.page_fault_stub
    else if n == 32
    then h.irq0
    else if n == 33
    then h.irq1
    else if n == 128
    then h.syscall_stub
    else h.default_isr

gate : ℕ → ℕ → IdtEntry
gate base flags = record {
  base_low = base % 2 ^ 16;
  selector = 0x08;
  always0 = 0;
  flags = flags;
  base_high = base / 2 ^ 16 % 2 ^ 16;
}

length-idt_set_gate :
    (num base sel flags : ℕ) (idt : List IdtEntry)
    → length (idt_set_gate num base sel flags idt) ≡ length idt
unfolding idt_set_gate
length-idt_set_gate num base sel flags idt = length-set idt num _

get_or-idt_set_gate :
    (num base flags j : ℕ) (idt : List IdtEntry) (d : IdtEntry)
    → num < length idt
    → get_or (idt_set_gate num base 0x08 flags idt) j d
      ≡ (if num == j then gate base flags else get_or idt j d)
unfolding idt_set_gate gate
get_or-idt_set_gate num base flags j idt d inside =
    let h : ltb num (length idt) ≡ true = ground arith in
    get_or-set idt num j (gate base flags) d ∙ ground (arith, h)

length-default_gates :
    (k i base : ℕ) (idt : List IdtEntry) → length (default_gates k i base idt) ≡ length idt
unfolding default_gates
length-default_gates zero i base idt = refl
length-default_gates (suc k) i base idt =
    length-default_gates k (i + 1) base (idt_set_gate i base 0x08 0x8E idt)
    ∙ length-idt_set_gate i base 0x08 0x8E idt

get_or-default_gates :
    (k i base j : ℕ) (idt : List IdtEntry) (d : IdtEntry)
    → i + k ≤ length idt
    → get_or (default_gates k i base idt) j d
      ≡ (if leb i j && ltb j (i + k) then gate base 0x8E else get_or idt j d)
unfolding default_gates
get_or-default_gates zero i base j idt d fits = ground arith
get_or-default_gates (suc k) i base j idt d fits =
    get_or-default_gates k (i + 1) base j (idt_set_gate i base 0x08 0x8E idt) d
      (omega (arith, length-idt_set_gate i base 0x08 0x8E idt))
    ∙ ground (arith, get_or-idt_set_gate i base 0x8E j idt d (omega arith))

-- One gate set after the others: what entry `j` is.
set_one :
    (num base flags j : ℕ) (idt : List IdtEntry) (d : IdtEntry)
    → num < 256
    → length idt ≡ 256
    → (length (idt_set_gate num base 0x08 flags idt) ≡ 256)
      × (get_or (idt_set_gate num base 0x08 flags idt) j d
          ≡ (if num == j then gate base flags else get_or idt j d))
set_one num base flags j idt d inside full = (
  length-idt_set_gate num base 0x08 flags idt ∙ full,
  get_or-idt_set_gate num base flags j idt d (omega (arith, full)),
)

abbrev expected : Handlers → ℕ → IdtEntry
expected h n = if n == 128 then gate h.syscall_stub 0xEE else gate (handler_of h n) 0x8E

idt_init-expected :
    (h : Handlers) (idt_at n : ℕ) (idt : List IdtEntry) (d : IdtEntry)
    → length idt ≡ 256
    → n < 256
    → get_or (idt_init h idt_at idt).0 n d ≡ expected h n
unfolding idt_init
idt_init-expected h idt_at n idt d full inside =
    let every : List IdtEntry = default_gates 256 0 h.default_isr idt in
    let l0 = length-default_gates 256 0 h.default_isr idt ∙ full in
    let e0 = get_or-default_gates 256 0 h.default_isr n idt d (omega (arith, full)) in
    let s1 = set_one 0 h.isr0 0x8E n every d (omega arith) l0 in
    let i1 : List IdtEntry = idt_set_gate 0 h.isr0 0x08 0x8E every in
    let s2 = set_one 32 h.irq0 0x8E n i1 d (omega arith) s1.0 in
    let i2 : List IdtEntry = idt_set_gate 32 h.irq0 0x08 0x8E i1 in
    let s3 = set_one 33 h.irq1 0x8E n i2 d (omega arith) s2.0 in
    let i3 : List IdtEntry = idt_set_gate 33 h.irq1 0x08 0x8E i2 in
    let s4 = set_one 13 h.gp_stub 0x8E n i3 d (omega arith) s3.0 in
    let i4 : List IdtEntry = idt_set_gate 13 h.gp_stub 0x08 0x8E i3 in
    let s5 = set_one 14 h.page_fault_stub 0x8E n i4 d (omega arith) s4.0 in
    let i5 : List IdtEntry = idt_set_gate 14 h.page_fault_stub 0x08 0x8E i4 in
    let s6 = set_one 128 h.syscall_stub 0xEE n i5 d (omega arith) s5.0 in
    ground (arith, s1.1, s2.1, s3.1, s4.1, s5.1, s6.1, e0)

expected-gate :
    (h : Handlers) (n : ℕ) → expected h n ≡ gate (handler_of h n) (if n == 128 then 0xEE else 0x8E)
expected-gate h n = elim (Bool-cases (n == 128)) [
  | inl e ↦ let same : handler_of h n ≡ h.syscall_stub = ground arith in rw (same, e)
  | inr e ↦ rw e
]

target-gate :
    (base flags : ℕ)
    → base < 2 ^ 32
    → (target_of (gate base flags) ≡ base)
      × ((gate base flags).selector ≡ 0x08)
      × ((gate base flags).flags ≡ flags)
unfolding gate
target-gate base flags small = (omega arith, refl, refl)

-- After `idt_init` the gate of each of the 256 interrupts leads to its handler, in the kernel's
-- code segment, and only that of the system calls can be used by a program.
pub idt_init-handlers :
    (h : Handlers) (idt_at n : ℕ) (idt : List IdtEntry) (d : IdtEntry)
    → length idt ≡ 256
    → n < 256
    → handler_of h n < 2 ^ 32
    → let e = get_or (idt_init h idt_at idt).0 n d in
      (target_of e ≡ handler_of h n)
      × (e.selector ≡ 0x08)
      × (e.flags ≡ (if n == 128 then 0xEE else 0x8E))
idt_init-handlers h idt_at n idt d full inside small =
    rw (idt_init-expected h idt_at n idt d full inside ∙ expected-gate h n)
      (target-gate (handler_of h n) (if n == 128 then 0xEE else 0x8E) small)
