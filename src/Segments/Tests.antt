-- ===== src/Segments/Tests.antt =====
-- Concrete descriptors for kernel/gdt.c.
use mars_os.Base.{◌-◌, ◌≡◌, refl, arith}
use mars_os.Segments.{Gdt, init, set_kernel_stack, tss_size}
use mars_os.Segments.Descriptors.{base_of, last_of, present_of, dpl_of, init-descriptors}

abbrev blank : Gdt
blank = record {
  gdt = λ i. record {
    limit_low = 0;
    base_low = 0;
    base_mid = 0;
    access = 0;
    granularity = 0;
    base_high = 0;
  };
  tss = record {
    esp0 = 0;
    ss0 = 0;
    es = 0;
    cs = 0;
    ss = 0;
    ds = 0;
    fs = 0;
    gs = 0;
    iomap_base = 0;
  };
  gdt_descriptor = record { limit = 0; base = 0 };
  data_selector = 0;
  tss_selector = 0;
}

kernel_stack : (set_kernel_stack blank 0x9000).tss.esp0 ≡ 0x9000
unfolding set_kernel_stack
kernel_stack = refl

init-descriptors_example :
    let g' = init blank 0x9000 0x12345678 0x2000 in
    (base_of (g'.gdt 5) ≡ 0x12345678)
    × (last_of (g'.gdt 5) ≡ tss_size - 1)
    × (present_of (g'.gdt 5) ≡ 1)
    × (dpl_of (g'.gdt 5) ≡ 0)
    × (g'.tss.esp0 ≡ 0x9000)
init-descriptors_example =
    init-descriptors blank 0x9000 0x12345678 0x2000 5 (omega arith) (omega arith) (omega arith)
