-- ===== src/Lib.antt =====
-- Mars OS, a small 32-bit kernel: its memory, tasks, files, messages, console, program images,
-- processes and system calls as functions on explicit states, translated from the C files of
-- kernel/.
--
-- The parts and how they interact. At boot `pmm_init` reads the memory map and hands out frames,
-- from which paging takes its tables and the kernel heap its pages. The heap (the interface
-- Allocator to its clients) gives task stacks to the scheduler and buffers to the file system.
-- The timer's tick makes the scheduler give up the processor. The process table names the
-- scheduler's tasks; a spawn takes frames, a page directory and a task, reads the program from
-- the files and enters the process, and a reaping gives all of them back. A system call looks up
-- the caller's mask and its pages, and then uses the other components. Processes send each other
-- messages; the keyboard's interrupt fills a ring that the shell reads, and the screen shows what
-- it prints.
--
-- The files:
-- - Pmm: kernel/pmm.c, the bitmap of frames: alloc_frame, free_frame, reserve_range and the
--   counters. Pmm/Boot is pmm_init and pmm_reserve_multiboot_data over the structures of
--   kernel/multiboot.h. Bitmap, Valid, Alloc, Free and Boot/Loops, Reserve, Fresh, Offered, Ready
--   hold the proofs.
-- - Paging: kernel/paging.c: init, map_page, unmap_page, translate, user_accessible,
--   clone_kernel_directory, switch_directory, on the words of directories and tables. Words and
--   Tables (Write, Flags, New) read them as one map from pages to entries; Ensure, Map, Walk,
--   Access, Start, Identity, Clone and Frames hold the proofs.
-- - Heap: kernel/kheap.c: split_block, coalesce, map_more, kmalloc, kfree, on the block headers,
--   with the pages behind the record PageSource, which Heap/Kernel fills. Cells is the heap as a
--   list of blocks, Chain the headers of one; Split, Absorb, Merge, Walk, Grow, Valid, Pages,
--   Malloc and Start hold the proofs.
-- - Timer: kernel/timer.c: init, isr and the readings. Proofs in Uptime.
-- - Syscall: of kernel/syscall.c the checks of pointers and copy_in_string. Proofs in Copy.
-- - Machine: the components side by side. UserSpace, Program, Spawn and Reap are
--   process_unmap_user_pages, process_build_user_image, process_spawn_common and process_reap of
--   kernel/process.c; Exec is kernel/exec.c, and Dispatch is syscall_dispatch of
--   kernel/syscall.c. The proofs stand below each of them.
-- - Segments: kernel/gdt.c: the descriptors. Proofs in Descriptors.
-- - Usermode: kernel/usermode.c: the pages and the program of its test. Proofs in Prepared.
-- - Interrupts: kernel/interrupts.c: the gates, the controllers and the report of a fault. Proofs
--   in Gates and Panic.
-- - Serial: kernel/serial.c: the bytes that go to the port.
-- - Fault: handle_page_fault of kernel/paging.c, over the screen, the serial port, the tasks and
--   the processes. Proofs in Handled.
-- - Scheduler: kernel/scheduler.c: pick_next, yield, on_tick, run_pending, create_task,
--   exit_current, reap_task. Proofs in Table, Pick, Invariant, Fair, Slots.
-- - Vfs: kernel/vfs.c: init, write_file, read_file, read_file_into and the listing. Proofs in
--   Files and Store.
-- - Ipc: kernel/ipc.c: init, send, recv, pending_count. Proofs in Queue, Laws, Delivery.
-- - Keyboard: kernel/keyboard.c: the ring, the decoder and the interrupt handler. Proofs in Ring
--   and Decode.
-- - Vga: kernel/vga.c: scrolling, the cursor, and the printing of numbers. Proofs in Screen and
--   Numbers.
-- - Shell: the text routines of kernel/kernel.c, with proofs in Numbers, and its history of lines
--   in History.
-- - Image: the hexadecimal reader and the emitted programs of kernel/process.c, with Image/Elf
--   its ELF loader. Proofs in Hex and Elf/Load.
-- - Process: the table, the identifiers and the queries of kernel/process.c. Proofs in Pids, Free
--   and Table.
-- - Allocator: the interface of kernel/kheap.h that the scheduler, the file system and the
--   building of a process take: where the heap grows, it changes the frames and the page tables
--   of Machine.
-- - Base: shared names, tests on numbers, lists, bits, counting, and the C strings that each file
--   copies and compares for itself.
--
-- A state is a record of the file's static variables, and an operation takes and returns it. A
-- word is a native number with its wrap-around written out. A nullable pointer is an `Option`,
-- and what a call stores through a pointer is returned. A string is the list of its bytes.
-- Assembly enters as arguments: the stack pointer that `context_switch` saves, the bytes read
-- from ports, the contents of memory at boot.
--
-- Bounds and fuel. The tables have the sizes of the source: 64 files and messages, 16 tasks, 32
-- processes and regions, 1048576 frames. The loops over frames run on fuel 1048576, the number of
-- frames, and the loop over the memory map on one round for each byte of the map and one more: an
-- entry takes at least 4 bytes. The hexadecimal reader has a round for each byte of the text and
-- one more, and the decimal printer one for each of its ten bytes. The walk over the pages of a
-- range runs on 1048576 rounds, one for each page of the 32-bit addresses, and the walks over the
-- heap's blocks on one for each 16 bytes of the heap and one more, since a header takes 16;
-- kmalloc grows the heap at most once for each frame that is left. The allocation of a pid has
-- its 33 tries, one more than there are processes.
--
-- Not modelled: of kernel/process.c process_user_task_entry, which enters user mode, and of
-- kernel/exec.c the bodies of the two kernel programs; the commands, the line editor and the
-- start of kernel/kernel.c; kernel/io.h, and the waits of kernel/serial.c for its device, which
-- are input and output; the assembly files, boot/boot.s and the tools. The disabling of
-- interrupts in kernel/process.c makes its steps one.
pub mod Base
pub mod Allocator
pub mod Pmm
pub mod Paging
pub mod Heap
pub mod Timer
pub mod Syscall
pub mod Serial
pub mod Fault
pub mod Scheduler
pub mod Vfs
pub mod Ipc
pub mod Keyboard
pub mod Vga
pub mod Shell
pub mod Image
pub mod Process
pub mod Machine
pub mod Segments
pub mod Interrupts
pub mod Usermode
