-- ===== src/Interrupts.antt =====
-- src/interrupts/: gdt.cpp, idt.cpp and tss.cpp, the processor's tables. Loading them into the
-- processor is not part of the state.
pub mod Descriptors
pub mod Tests
use nemo_os.Base.{ℕ, zero, suc, ◌+◌, ◌-◌, ◌*◌, ◌/◌, ◌%◌, ◌^◌, List, set}

pub record GdtEntry : Type 0 where
  pub limit_low : ℕ
  pub base_low : ℕ
  pub base_middle : ℕ
  pub access : ℕ
  pub granularity : ℕ
  pub base_high : ℕ

-- The number is an index of the array; a write outside it is lost.
unfoldable pub gdt_set_gate : ℕ → ℕ → ℕ → ℕ → ℕ → List GdtEntry → List GdtEntry
gdt_set_gate num base limit access gran gdt = set gdt num (record {
  limit_low = limit % 2 ^ 16;
  base_low = base % 2 ^ 16;
  base_middle = base / 2 ^ 16 % 256;
  access = access;
  granularity = limit / 2 ^ 16 % 16 + gran / 16 % 16 * 16;
  base_high = base / 2 ^ 24 % 256;
})

-- `GDTPtr` and `IDTPtr`
pub record TablePtr : Type 0 where
  pub limit : ℕ
  pub base : ℕ

-- `gdt_at` is the address of the array.
unfoldable pub gdt_init : ℕ → List GdtEntry → List GdtEntry × TablePtr
gdt_init gdt_at gdt =
    let null_gate = gdt_set_gate 0 0 0 0 0 gdt in
    let kernel_code = gdt_set_gate 1 0 0xFFFFFFFF 0x9A 0xCF null_gate in
    let kernel_data = gdt_set_gate 2 0 0xFFFFFFFF 0x92 0xCF kernel_code in
    let user_code = gdt_set_gate 3 0 0xFFFFFFFF 0xFA 0xCF kernel_data in
    let user_data = gdt_set_gate 4 0 0xFFFFFFFF 0xF2 0xCF user_code in
    (user_data, record { limit = 8 * 6 - 1; base = gdt_at })

pub record IdtEntry : Type 0 where
  pub base_low : ℕ
  pub selector : ℕ
  pub always0 : ℕ
  pub flags : ℕ
  pub base_high : ℕ

unfoldable pub idt_set_gate : ℕ → ℕ → ℕ → ℕ → List IdtEntry → List IdtEntry
idt_set_gate num base sel flags idt = set idt num (record {
  base_low = base % 2 ^ 16;
  selector = sel;
  always0 = 0;
  flags = flags;
  base_high = base / 2 ^ 16 % 2 ^ 16;
})

-- The addresses of the handlers.
pub record Handlers : Type 0 where
  pub default_isr : ℕ
  pub isr0 : ℕ
  pub gp_stub : ℕ
  pub page_fault_stub : ℕ
  pub irq0 : ℕ
  pub irq1 : ℕ
  pub syscall_stub : ℕ

-- The loop of `idt_init`, from gate `i`, with `k` rounds left.
unfoldable pub default_gates : ℕ → ℕ → ℕ → List IdtEntry → List IdtEntry
default_gates zero i base idt = idt
default_gates (suc k) i base idt = default_gates k (i + 1) base (idt_set_gate i base 0x08 0x8E idt)

unfoldable pub idt_init : Handlers → ℕ → List IdtEntry → List IdtEntry × TablePtr
idt_init h idt_at idt =
    let every = default_gates 256 0 h.default_isr idt in
    let divide = idt_set_gate 0 h.isr0 0x08 0x8E every in
    let timer = idt_set_gate 32 h.irq0 0x08 0x8E divide in
    let keyboard = idt_set_gate 33 h.irq1 0x08 0x8E timer in
    let protection = idt_set_gate 13 h.gp_stub 0x08 0x8E keyboard in
    let fault = idt_set_gate 14 h.page_fault_stub 0x08 0x8E protection in
    let syscall = idt_set_gate 128 h.syscall_stub 0x08 0xEE fault in
    (syscall, record { limit = 8 * 256 - 1; base = idt_at })

-- The fields that `tss_init` sets; the others are 0.
pub record TssEntry : Type 0 where
  pub esp0 : ℕ
  pub ss0 : ℕ
  pub es : ℕ
  pub cs : ℕ
  pub ss : ℕ
  pub ds : ℕ
  pub fs : ℕ
  pub gs : ℕ
  pub iomap_base : ℕ

abbrev pub tss_size : ℕ
tss_size = 104

unfoldable pub tss_set_kernel_stack : ℕ → TssEntry → TssEntry
tss_set_kernel_stack stack tss = record tss { esp0 = stack }

unfoldable pub tss_init : ℕ → ℕ → List GdtEntry → TssEntry × List GdtEntry
tss_init tss_at stack_top gdt = (
  record {
    esp0 = stack_top;
    ss0 = 0x10;
    es = 0x13;
    cs = 0x0B;
    ss = 0x13;
    ds = 0x13;
    fs = 0x13;
    gs = 0x13;
    iomap_base = tss_size;
  },
  gdt_set_gate 5 tss_at (tss_size - 1) 0x89 0x40 gdt,
)
