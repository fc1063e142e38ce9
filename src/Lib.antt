-- ===== src/Lib.antt =====
-- PotatOS, a small 64-bit hobby kernel in C: a model of its core and what is proved of it.
--
-- Parts of the kernel and how they interact. The boot loader reports the memory; `init_pmm`
-- (src/mem/pmm.c) sets up a bitmap of physical pages (src/mem/bitmap.c) and marks in it what the
-- memory map reserves (src/mem/mmap.c). Paging (src/mem/paging.c) takes pages from the bitmap for
-- page tables and for mapped memory. The manager of virtual memory (src/mem/vmm.c) keeps a list of
-- regions, each mapped page by page. The kernel heap (src/mem/kheap.c) hands out blocks of memory,
-- and asks paging to map what it touches. Text goes through `printf` (src/lib/stdio.c), with the
-- numbers of src/lib/stdlib.c and the strings of src/lib/string.c, to the text screen
-- (src/drivers/vga.c) and the serial port (src/drivers/serial.c). Interrupts reach
-- `interrupt_dispatch` (src/arch/x86_64/idt/idt.c), which calls the keyboard's handler
-- (src/drivers/keyboard.c) and the scheduler (src/scheluding/scheluder.c). Between interrupts the kernel
-- draws a picture and the text screen into a buffer, which it copies to the framebuffer
-- (src/drivers/framebuffer/framebuffer.c).
--
-- Files and what they model; the functions of the model have the names of the source's functions:
--   Base: tests, words of fixed width, bytes in memory, laws of `&` and `|`.
--   Bitmap: src/mem/bitmap.c. The record `Bitmap` holds the memory from the pointer `bitmap` on and
--     `total_pages`.
--   Pmm: `init_pmm` of src/mem/pmm.c and `parse_mmap` of src/mem/mmap.c over records for the tags of
--     include/multiboot.h.
--   Paging: src/mem/paging.c with the masks of include/mem/paging.h, over physical memory; the
--     processor's walk of the tables is the parameter `Mmu`. Paging/Physical holds the functions that
--     walk the tables themselves.
--   Vmm: `init_vmm`, `vmm_allocate` and `vmm_free` of src/mem/vmm.c. `Vmm` holds the nodes by their addresses and
--     `vm_root`; paging and the physical pages enter as the interface `PageOps`.
--   Kheap: src/mem/kheap.c over memory byte by byte. `Heap` holds `heap_head` and `heap_start` of
--     `*heap`, the memory and the state of the mappings; `split_block` is `split`. Paging enters as
--     the interface `Mapper`.
--   Text: src/lib/string.c over memory byte by byte; `memmove` takes its block from Kheap.
--   Number: `itoa64`, `itoa` and `reverse` of src/lib/stdlib.c, over the same memory.
--   Print: src/lib/stdio.c and `printfs` of src/drivers/serial.c, as the texts that they put;
--     `Console` is the screen and the serial port that `putchar` writes to.
--   Vga: src/drivers/vga.c. `Vga` holds the cells of the screen, the cursor, the color, the size and
--     the writes to the ports.
--   Framebuffer: src/drivers/framebuffer/framebuffer.c. `Framebuffer` holds the size and the pixels of
--     the array and of the screen; Framebuffer/Draw draws text with a `Font`, Framebuffer/Picture the
--     picture of include/utils/background.h.
--   Hexdump: src/utils/hexdump.c, as the calls of `printf` that it makes.
--   Serial: src/drivers/serial.c and src/drivers/ports.c. `Serial` holds the bytes that the reads of
--     the line's status deliver and the writes to the ports.
--   Keyboard: src/drivers/keyboard.c. `Keyboard` holds the ring of key events, the state of the prefix,
--     the modifiers and what was printed.
--   Scheduler: src/scheluding/scheluder.c. `Scheduler` holds the table `snapshots`, the processes and
--     contexts by their addresses, `current_task` for `currentTask` and `num_tasks` for `numTasks`.
--     Which of the pointers that the new table holds by chance lead to a structure is a parameter.
--   Idt: src/arch/x86_64/idt/idt.c. `Gate` is an entry of the table; `Machine` holds the keyboard, the
--     scheduler and the writes to the ports; an `Outcome` is how `interrupt_dispatch` ends.
--
-- Conventions. Numbers are natural numbers, with the wrap-around of the C types written out; an `int`
-- is its bit pattern. Memory is a function from addresses to bytes. A counted loop recurs on the rounds
-- that are left. Loops without a count take fuel, and the theorems say how much is enough: one more
-- than the number of blocks for `kmalloc` and `kfree`, two more than the regions passed for `vmm_allocate` and
-- `vmm_free`, one more than the characters of a string and than the rows of a dump, and for the serial port as many reads as the
-- device takes to become ready. Where a loop has not ended the result is `none`.
--
-- Not modelled: assembly (src/boot, src/kernel/gdt.asm, src/arch/x86_64/idt/idt_stub.asm), what is
-- printed for diagnosis, the order of calls in src/kernel/kernel.c, and `convert_x86_64_vm_flags`, whose
-- result is not used. The characters of the picture in include/utils/background.h and the font's file
-- are memory that the drawing functions read. A page that is newly mapped shows whatever the memory
-- function says at its addresses.
pub mod Base
pub mod Bitmap
pub mod Pmm
pub mod Paging
pub mod Kheap
pub mod Text
pub mod Number
pub mod Keyboard
pub mod Vga
pub mod Serial
pub mod Print
pub mod Scheduler
pub mod Idt
pub mod Vmm
pub mod Framebuffer
pub mod Hexdump
