-- ===== src/Interrupts/Tests.antt =====
-- The theorems on the processor's tables at concrete ones.
use nemo_os.Base.{◌≡◌, List, arith, get_or, replicate, length-replicate}
use nemo_os.Interrupts.{GdtEntry, IdtEntry, idt_init, Handlers}
use nemo_os.Interrupts.Descriptors.{target_of, idt_init-handlers}

abbrev empty_segment : GdtEntry
empty_segment = record {
  limit_low = 0;
  base_low = 0;
  base_middle = 0;
  access = 0;
  granularity = 0;
  base_high = 0;
}

abbrev six : List GdtEntry
six = replicate 6 empty_segment

abbrev empty_gate : IdtEntry
empty_gate = record { base_low = 0; selector = 0; always0 = 0; flags = 0; base_high = 0 }

abbrev handlers : Handlers
handlers = record {
  default_isr = 0x1000;
  isr0 = 0x1100;
  gp_stub = 0x1200;
  page_fault_stub = 0x1300;
  irq0 = 0x1400;
  irq1 = 0x1500;
  syscall_stub = 0x1600;
}

idt_init-handlers_example :
    let e = get_or (idt_init handlers 0 (replicate 256 empty_gate)).0 128 empty_gate in
    (target_of e ≡ 0x1600) × (e.selector ≡ 0x08) × (e.flags ≡ 0xEE)
idt_init-handlers_example =
    idt_init-handlers handlers 0 128 (replicate 256 empty_gate) empty_gate
      (length-replicate 256 empty_gate) (omega arith) (omega arith)
