-- ===== src/Lib.antt =====
-- TarkOS, a kernel for 32-bit x86: a verification of the parts of it that compute. Paths are from
-- the repository's root.
--
-- Pmm           kernel/mm/pmm.c, include/kernel/pmm.h: the bitmap allocator of physical pages. The
--               static variables are the record `Pmm`; each function takes it and returns the new
--               one. Pmm/Init is `pmm_init` over the memory map of include/kernel/multiboot.h.
--               Children: Bitmap (the operations on bits, the count of used pages), Find and Run
--               (the two searches), Invariant, Alloc, Region, InitPages (what the functions do),
--               Calls (any sequence of calls).
-- Text          kernel/kernel.c: the string helpers `strcmp`, `starts_with`, `str_contains`,
--               `count_words`, `count_lines`, and in Text/Tokens `split_args`, `after_n_tokens` and
--               `calc_eval`. A C string is the list of the bytes before its NUL.
-- Fs            kernel/kernel.c: the RAM disk `fs_table`, its paths (Fs/Dirs) and the shell's
--               commands on files (Fs/Commands). Lookup and Map read the table as a map from names
--               to contents; Change, DirLaws, PathLaws and CommandLaws say what each operation
--               does to that map, Errors what a failed command leaves; Calls is any sequence of calls
--               from `fs_init` on.
-- Interrupts    kernel/arch/i386: the table of interrupts (Interrupts: idt.c), of segments (Gdt), the two
--               controllers (Pic) and `isr_handler` (Isr). The ports are an interface of Pic, and what
--               the code at a handler's address does is a parameter of Isr. Gates and Segments are
--               what the processor reads in the tables, Masks the lines that are shut, Dispatch
--               and Ticks runs of interrupts.
-- Keyboard      kernel/drivers/keyboard.c, include/kernel/keyboard.h: the ring buffer of events, read
--               as a queue in Keyboard/Queue, and the handler of a byte, in Keyboard/Handler.
-- Mouse         kernel/drivers/mouse.c, include/kernel/mouse.h: the packets of three bytes
--               (Mouse/Packet), the position on the screen (Mouse/Clamp), and any sequence of
--               interrupts and calls (Mouse/Calls).
-- Windows       kernel/gui/window_manager.c, include/kernel/window.h: windows, focus, z-order, the hit
--               test and the mouse. Scan is the search for the topmost window, Steps the calls
--               one by one, Focus what focusing does, Calls any sequence of calls.
-- Clib          kernel/lib/string.c: memory and string functions, over a list of bytes. Copy is
--               `memcpy` and `memmove`, Bounded the reach of `strncpy`, Number `itoa` and `utoa`, with
--               the `itoa` of kernel/kernel.c, NumberLaws what their digits read as. Print and
--               PrintLaws are kernel/lib/printf.c.
-- Console       kernel/kernel.c: the text screen, a list of cells, from `set_color` to `print_at` with
--               the themes and the bars. Cells and Scroll are the cells that drawing and scrolling
--               write, Text and Screen what printing and clearing keep, Window and WindowLaws
--               `draw_window`, Clock the time and the date, Pong `game_pong`, Matrix
--               `effect_matrix`.
-- Shell         kernel/kernel.c: the keys, `tredit` (Editor, EditorLaws), `shell_loop` up to the
--               commands (Line, LineLaws), its history (History) and the table of descriptions (Help).
--               Session is what commands work on; FileCommands, InfoCommands and Listing are the
--               commands, Dispatch finds the command of a line and composes a round of the
--               loop, Boot is the start, from `kmain` on. SessionLaws, CommandLaws, DispatchLaws,
--               RoundLaws and BootLaws go from one command to every line and every run of the
--               shell; ReadLaws are the commands that leave files alone, CatLaws `write` and
--               then `cat`, ListingLaws, EntryLaws and ShownLaws `ls`.
-- Timer         kernel/drivers/timer.c: the ticks; a list says for each round of a loop that waits
--               how often the timer ticks before `HLT` and what interrupt ends it. Sleep is the wait for some ticks, Divisor what `timer_init` sends.
-- Graphics      kernel/gui/framebuffer.c and kernel/gui/graphics.c: the frame buffer, a list of pixels
--               (Graphics), and what is drawn (Draw, Circle, Cursor). Pixels and Fill say what pixels
--               hold after a call, Ends that the circles end.
-- Paging        kernel/mm/paging.c, include/kernel/paging.h: the page directory and its tables, in a
--               memory of pages, with new tables from Pmm. Mapping is what is read of an address
--               that was mapped or unmapped, Others what mapping leaves, Identity the end of the loop
--               that maps a range.
-- Prelude       shared helpers: Boolean tests, lists over the native numbers, integers, bits, and
--               rectangles of cells in a row-major array.
--
-- Both drivers are functions of the byte that their port gives.
--
-- The Makefile builds boot/boot.asm and kernel/kernel.c, which has its own string functions; the
-- other files are parts of a kernel of several modules. It runs one thread; the parts share no
-- state but through the calls named. The RAM disk uses Text to compare names, and the shell's
-- commands use the RAM disk. The editor saves to the RAM disk, and the shell's line and its commands
-- print to the console; the bytes that the keyboard gives are their arguments. An interrupt calls
-- the timer's handler through the table of handlers.
--
-- Numbers. `uint32_t` is a natural number with `% 2 ^ 32` written out where the code can wrap; an
-- `int` that may be negative is an integer, and one that is a count or an index is a natural
-- number. A loop is recursion on its number of rounds. The two loops over a region in pmm.c count
-- addresses; they run on `region_fuel`, 2 ^ 20 rounds, which is enough as every round adds a page
-- to an address below 2 ^ 32. `keyboard_getchar` runs on KEY_BUFFER_SIZE rounds, one for each event
-- that the buffer can hold. The theorems on regions say what the finished loop has done. The rounds
-- of a circle and of `paging_identity_map` are an argument: one more than the radius is enough, and
-- 2 ^ 20, one for each page of the address space. Where an `int` overflows in a circle or in the width
-- of a format, the function gives nothing; the z-order of the windows, which grows by one with each
-- change of the focus, has no bound.
-- Reading or writing outside an array is undefined in C; here it reads a default or changes
-- nothing, and the theorems carry the bounds that keep the code inside.
--
-- Not modelled: what runs on the machine itself (boot/boot.asm, the instructions that load tables,
-- stop the processor or wait, those of ports but for the interface, the registers of paging), the
-- fonts, and of kernel/gui/graphics.c and kernel/gui/framebuffer.c the slanted line and the copying of
-- rectangles. The walk over the boot loader's raw table is the list of its entries, and the linker's
-- symbols are arguments.
pub mod Prelude
pub mod Pmm
pub mod Text
pub mod Fs
pub mod Interrupts
pub mod Keyboard
pub mod Mouse
pub mod Windows
pub mod Clib
pub mod Console
pub mod Shell
pub mod Timer
pub mod Graphics
pub mod Paging
