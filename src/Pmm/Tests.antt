-- ===== src/Pmm/Tests.antt =====
-- A concrete state of kernel/pmm.c: one usable frame, number 256, which is free.
use mars_os.Base.{
  ℕ, ◌+◌, ◌/◌, ◌%◌, ◌^◌, ◌<◌, ◌≡◌, refl, sym, ◌∙◌, true, false, not, ◌&&◌, [], ◌∷◌, ◌==◌,
  if◌then◌else◌, arith,
}
use mars_os.Base.Count.{count-insert, count-none}
use mars_os.Pmm.{
  Pmm, clear_bit, in_some, frame_in_regions, alloc_frame, free_frame, total_frames, used_frames,
  free_frames, highest_address, reserve_range,
}
use mars_os.Pmm.Bitmap.{frame_set, frame_set-clear_bit}
use mars_os.Pmm.Valid.{IsValid, usable, taken}
use mars_os.Pmm.Alloc.{Allocated, alloc_frame-Allocated}
use mars_os.Pmm.Free.{is_in_use, free_frame_lem, free-alloc}
use mars_os.Pmm.Boot.{BootInfo, BootMemory, blank}
use mars_os.Pmm.Boot.Fresh.{blank-Fresh}
use mars_os.Pmm.Boot.Reserve.{Reserved, reserve_range-Reserved}

abbrev pub one_frame : Pmm
one_frame = record (clear_bit blank 256) {
  regions = record { start = 0x100000; end_ = 0x101000 } ∷ [];
  total = 1;
  used = 0;
  hint_frame = 0;
  highest_end = 0x101000;
  initialized = true;
}

pub one_frame-set : (i : ℕ) → i < 1048576 → frame_set one_frame i ≡ not (256 == i)
unfolding frame_set usable frame_in_regions in_some
one_frame-set i h =
    let b : frame_set blank i ≡ true = blank-Fresh.free_usable i h in
    let c : frame_set one_frame i ≡ (if 256 == i then false else frame_set blank i) =
      frame_set-clear_bit blank 256 i in
    c ∙ ground (arith, b)

one_frame-usable : (i : ℕ) → usable one_frame i ≡ (256 == i)
unfolding usable frame_in_regions in_some
one_frame-usable i = ground arith

pub one_frame-IsValid : IsValid one_frame
one_frame-IsValid = record {
  is_ready = refl;
  hint_in = omega arith;
  total_eq = sym (
      count-insert (λ i. false) (usable one_frame) 1048576 256 (omega arith) refl
        (one_frame-usable 256) (λ i n. ground (arith, one_frame-usable i))
      ∙ omega (arith, count-none (λ i. false) 1048576 (λ i l. refl)));
  used_eq = sym (
      count-none (taken one_frame) 1048576
        (λ i l. ground (arith, one_frame-usable i, one_frame-set i l)));
  null_reserved = one_frame-usable 0;
  rest_reserved = λ i l e. ground (arith, one_frame-usable i, one_frame-set i l);
}

counters :
    total_frames one_frame
      ∷ used_frames one_frame
      ∷ free_frames one_frame
      ∷ highest_address one_frame
      ∷ []
    ≡ 1 ∷ 0 ∷ 1 ∷ 0x101000 ∷ []
unfolding total_frames used_frames free_frames highest_address
counters = refl

alloc_frame-Allocated_example :
    Allocated one_frame (alloc_frame one_frame).0 (alloc_frame one_frame).1
alloc_frame-Allocated_example = alloc_frame-Allocated one_frame one_frame-IsValid (omega arith)

free_frame_lem_example :
    let (freed, p') = free_frame one_frame 0x100000 in
    (freed ≡ is_in_use one_frame 0x100000)
    × (frame_set p' 256
        ≡ (if freed && 0x100000 / 4096 == 256 then false else frame_set one_frame 256))
    × (one_frame.used ≡ p'.used + (if freed then 1 else 0))
    × (p'.regions ≡ one_frame.regions)
    × IsValid p'
    × (p'.total ≡ one_frame.total)
    × (p'.highest_end ≡ one_frame.highest_end)
    × (p' ≡ (if freed then p' else one_frame))
free_frame_lem_example = free_frame_lem one_frame 0x100000 256 one_frame-IsValid (omega arith)

free-alloc_example :
    let (f, p') = alloc_frame one_frame in
    let (freed, p'') = free_frame p' f in
    (freed ≡ true)
    × (frame_set p'' 256 ≡ frame_set one_frame 256)
    × (p''.used ≡ one_frame.used)
    × IsValid p''
free-alloc_example = free-alloc one_frame 256 one_frame-IsValid (omega arith)

reserve_range-Reserved_example :
    Reserved one_frame
      (0x100000 / 4096)
      ((0x100001 + 4095) % 2 ^ 32 / 4096)
      (reserve_range one_frame 0x100000 0x100001)
reserve_range-Reserved_example =
    reserve_range-Reserved one_frame 0x100000 0x100001 (omega arith) one_frame-IsValid

-- A map of one entry, the megabyte from 1 MiB on, with no modules and no command line.
abbrev boot_info : BootInfo
boot_info = record {
  address = 0x9000;
  flags = 0x40;
  cmdline = 0;
  mods_count = 0;
  mods_addr = 0;
  mmap_length = 24;
  mmap_addr = 0x9100;
}

abbrev boot_memory : BootMemory
boot_memory = record {
  entry_at = λ a. record { size = 20; addr = 0x100000; len = 0x100000; kind = 1 };
  module_at = λ a. record { mod_start = 0; mod_end = 0; string = 0 };
  byte_at = λ a. 0;
}
