-- ===== src/Lib.antt =====
-- Verification of Pygmali OS, a 32-bit x86 kernel in C. Each file models the C code it names in its
-- first comment, function by function, and proves what that code does.
--
-- Parts and files:
-- - Base and its children: lists, Boolean tests, machine words (`u8` to `u64` are casts, `shl` and
--   `shr` shifts) and bits as arithmetic, shared by all parts.
-- - Io: the accesses to ports, include/io.h, as a list of events in order, and the end of an
--   interrupt, src/pic.c.
-- - Pit: the timer, the speaker and the table of notes of src/pit.c; Pit/Divisors has the divisor.
-- - Song: src/orpheus.c. Song is the code, Song/Tokens the words of a song.
-- - Split: the loops that cut a text into words, which src/orpheus.c and src/inputhandler.c share.
-- - Shell: src/inputhandler.c and the input buffer of src/writingmode.c. Shell is the code,
--   Shell/Arguments the words of a line, Shell/Line the line that is typed, Shell/Past the history.
-- - Editor: src/galatea.c. Editor is the code of the text and the keys, Editor/Screen that of the
--   drawing; Editor/Edits, Editor/Lines, Editor/Keys, Editor/Start and Editor/Drawing hold the proofs.
-- - Pic: the set-up, the masks and the registers of the interrupt controllers, src/pic.c.
-- - Terminal: the cells and the cursor of src/tty.c with the scrolling of src/writingmode.c;
--   Terminal/Cursor proves that the cursor stays on the screen.
-- - Heap: `kmalloc`, `kfree`, `krealloc` and `heap_stats` of src/kmalloc.c. The store keeps the
--   header at each address apart from the data bytes. Heap/Blocks describes the heap as a list of
--   blocks with their sizes, Heap/Chain ties that list to the linked headers, and Heap/Search,
--   Heap/Extend, Heap/Alloc, Heap/Free, Heap/Realloc and Heap/Stats hold the proofs for each loop.
-- - Paging: src/paging.c. Paging is the bitmap of physical pages, Paging/Bytes the bits of a byte and
--   Paging/Pages the bitmap as a set of free pages. Paging/Tables is the code of the page tables,
--   Paging/Windows the addresses behind which they lie, Paging/Mapping the invariant and the change
--   of one entry; Paging/Clearing is about the memset behind it; Paging/Entries, Paging/NewTable,
--   Paging/AddressSpace and Paging/Faults follow the code from an entry to a page fault.
-- - Process: src/process.c. Process is the code, Process/First what the
--   first process makes of the list, Process/Ring the list once it is a ring, Process/Turns the
--   scheduler, Process/Kill the end of a process and Process/Pids the choice of a pid.
-- - Syscalls: src/syscalls.c. Syscalls is the code, Syscalls/Addresses the test of the addresses and
--   the cases of the handler, Syscalls/Rectangles the drawing.
-- - Rtc: src/rtc.c. Rtc is the code, Rtc/Calendar the time of day and the calendar it is compared
--   with, Rtc/Update the interrupt and Rtc/Startup the reading of the chip.
-- - Keyboard: src/keyboardhandler.c. Keyboard is the code, Keyboard/Layout the two character maps,
--   Keyboard/Ring the ring buffer as a queue, Keyboard/ScanCodes the codes of several bytes and
--   Keyboard/Keys the key state and the events.
-- - Descriptors: src/gdt.c, and `makeIDTEntry` and `initIdt` of src/idt.c, with decoders that read
--   the bits as the processor does. Descriptors/Gates has the table of gates.
-- - CString: byte strings, src/string.c.
-- - Disk: src/diskreader.c, and the boot record of src/fatparser.c. Disk is the table of partitions,
--   Disk/Ata the code at the ports, Disk/Drive what it relies on of the drive; Disk/Waits,
--   Disk/Words, Disk/Transfers and Disk/Sectors go from the loops to the sectors of Fat/Volume.
-- - Fat: src/fatparser.c over the sectors of src/diskreader.c. Fat/Volume has the sector access and
--   the file allocation table, Fat/Chains the walks along a file; Fat/Table, Fat/Copies and
--   Fat/Entries prove what an entry holds after a write, Fat/Empty the search for an empty one,
--   Fat/Files and Fat/Extend the chains. Fat/Names and Fat/ShortNames are the names of files,
--   Fat/Directory and Fat/Listing directories and contents, Fat/Paths the paths, Fat/Locations the
--   search for a file and Fat/Changes writing, creating and deleting it; Fat/Freed proves what
--   deleting frees, Fat/Contents what a file holds after it is written, Fat/Parts which segments of a path
--   are left, Fat/InPlace that writing it over itself loses none of them, and Fat/Normal what a path
--   becomes.
--
-- The interrupt handlers of the clock and the keyboard write the state that the startup code and
-- the shell read; the file system takes its buffers from the heap and its sectors from the disk.
--
-- Words and bounds: a C integer is a natural number, cut to its width by a cast where it can wrap.
-- A pointer is its 32-bit address.
--
-- Fuel: the loops over the blocks of the heap and along the clusters of a file run on fuel and give
-- `none` without it. The theorems ask for at most as much fuel as there are blocks, clusters,
-- words or cells and one or two more, and that on `krealloc` for 400000 rounds, more than blocks fit
-- into the heap, and say that the code then returns. The loop of `shell_scroll` over the columns has
-- fuel for as many rounds as its counter of eight bits has values.
--
-- Memory: the editor's block is taken to grow whenever `krealloc` is asked for it, and the block of a
-- text that is left is not followed. The sectors of Fat/Volume are numbered by 32 bits, and a drive
-- always answers there; Disk/Sectors says for which sectors and drives the ports behave like that.
--
-- Not modelled: the frame buffer, the commands, timing,
-- privileged instructions, the set-up of paging, the memory of a new process, the boot code, and src/printf.c,
-- which is a copy of another library. A load or store outside an array of the source is described
-- where it can occur. A header is not written through a pointer to data.
pub mod Pic
pub mod Pit
pub mod Paging
pub mod Base
pub mod Io
pub mod Rtc
pub mod Descriptors
pub mod Heap
pub mod Keyboard
pub mod CString
pub mod Split
pub mod Shell
pub mod Song
pub mod Fat
pub mod Editor
pub mod Disk
pub mod Terminal
pub mod Process
pub mod Syscalls
