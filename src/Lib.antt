-- ===== src/Lib.antt =====
-- A model of ten parts of Sandix, with their theorems: the boot-time memory allocator, the map of
-- memory that the firmware gives, the tree of I/O and memory resources, heap sort, the string
-- library, formatted printing, the early mappings of physical memory, the sizes of the zones of
-- page frames, the terminals, and the virtual console below them.
--
-- The program. Before the kernel has pages it hands out physical memory from `mm/memblock.c`, with
-- the types and constants of `include/sandix/memblock.h`. The variable `memblock` keeps two arrays
-- of address ranges: `memory`, which the x86 code fills from the firmware's map, and `reserved`,
-- which every allocation adds to. What is free is what `memory` covers and `reserved` does not: the
-- iterators walk over it, the searches take the first area from them that fits a request, and the
-- allocation reserves what a search has found. The claims of drivers to ranges of ports and memory
-- are in the tree of `kernel/resource.c`, in which the ranges under one resource are in order and
-- apart. The rest of the kernel compares, copies and searches text and memory with the functions of
-- `lib/string.c`, which take the classes of characters from `lib/ctype.c`, and sorts arrays with
-- `lib/sort.c`. It prints text with `lib/vsprintf.c`. At boot `arch/x86/kernel/e820.c` takes the
-- map of memory from the firmware, sorts its boundaries with `lib/sort.c`, makes a map without
-- overlaps of it and adds the RAM in it to `memblock`. `lib/vsprintf.c` calls strnlen of the string
-- library and prints the resources of the tree. `mm/early_ioremap.c` maps physical memory for a
-- while before the kernel has its page tables, in eight slots of 64 pages among the fixed
-- addresses. `mm/page_alloc.c` counts the page frames of `memblock` in the zones of a node. What is
-- written to a terminal goes through `drivers/tty/tty_io.c` and the line discipline of
-- `drivers/tty/n_tty.c` to the operations of a driver. That of the console is
-- `drivers/tty/vt/vt.c`, which follows the control sequences in the text and writes to the screen
-- through `drivers/console/vgacon.c` and `include/video/video.h`.
--
-- The files:
--   Common            names of the libraries, Boolean tests on numbers, lists by native numbers
--   Word              phys_addr_t and u64 with their wrap-around (include/sandix/types.h)
--   Memblock.Types    struct memblock_region, struct memblock_type, and what a call can end in
--   Memblock.Ops      memblock_cap_size, memblock_insert_region, memblock_merge_regions,
--                     memblock_add_range
--   Memblock.Cut      memblock_remove_region, memblock_isolate_range, memblock_remove_range,
--                     memblock_set_node
--   Memblock.State    struct memblock and memblock_add, memblock_add_node, memblock_reserve,
--                     memblock_remove, memblock_free, memblock_set_current_limit
--   Memblock.Range    __next_mem_range and __next_mem_range_rev
--   Memblock.Find     __memblock_find_range_bottom_up, __memblock_find_range_top_down,
--                     memblock_find_in_range_node, memblock_find_in_range,
--                     memblock_virt_alloc_internal and its two public wrappers
--   Memblock.Walk     memblock_trim_memory and __next_mem_pfn_range
--   Memblock.Cover    the addresses a list of regions covers, their nodes and flags, and when an
--                     array is in order
--   Resource          struct resource (include/sandix/io.h), request_resource, release_resource
--   Resource.Insert   insert_resource
--   Sort              sort of lib/sort.c
--   Strings.Ctype     the table of lib/ctype.c, isspace, iscntrl, toupper and the like
--                     (include/sandix/ctype.h)
--   Strings.Mem       memset, memcpy, memmove, memcmp, memscan and memchr of lib/string.c
--   Strings.Str       the other functions of lib/string.c, from skip_spaces to strnstr
--   E820              sanitize_e820_map with its change points and overlap list, the copy of the
--                     map, e820_end_pfn and memblock_x86_fill
--   Printf            enum format_type, struct printf_spec, and the output of lib/vsprintf.c
--   Printf.Digits     put_dec and its helpers
--   Printf.Number     number
--   Printf.Text       string, resource_string, hex_string, address_val and pointer
--   Printf.Decode     skip_atoi and format_decode
--   Printf.Format     vsnprintf, vscnprintf and vsprintf
--   Ioremap           the slots of mm/early_ioremap.c, with __early_set_fixmap of
--                     arch/x86/mm/ioremap.c and the addresses of asm-generic/fixmap.h
--   Zones             the walk over page ranges of mm/page_alloc.c (include/sandix/memblock.h), and
--                     calculate_node_totalpages with what it calls
--   Vt                struct vc_struct (include/sandix/console.h), the copies of include/video/video.h, the
--                     operations of drivers/console/vgacon.c, and the moves of the cursor in
--                     drivers/tty/vt/vt.c
--   Vt.Csi            the control sequences of con_write
--   Vt.Write          con_write with its parser, con_put_char and con_write_room
--   Vt.Init           vgacon_startup and vgacon_init with struct screen_info
--                     (include/sandix/screen_info.h), and the driver's other operations
--   Vt.Registry       bind_con_driver, register_con_driver and unregister_con_driver
--   Tty               struct tty_operations (include/sandix/tty_driver.h), tty_write_room, tty_put_char
--   Tty.Ntty          n_tty_write, process_output_block, process_output and do_output_char
--   Tty.Cook          what a text is sent as, character by character
--   Tty.Handed        the calls that a driver gets, and what it promises
--   Tty.Console       do_tty_write, copy_from_user and console_ops
-- The other files are proofs: Splice, Merge, Round, Add and Parts for Ops, the children of Cut,
-- State, Range and Find for these, Chain and Request for Resource, the children of Mem and Str,
-- Keeps, Array, Sift and Sorted for Sort, the children of E820 and Ioremap, Bounds and the children
-- of Digits and Format for Printf, Words, Window, Place, Stays, Line, Position, Delete, Start,
-- Slots and Drivers for Vt, the children of Zones, Sends, Loop and Stopped for Tty.Ntty, and Tests
-- with runs and examples.
--
-- How the model corresponds to the code. An array of regions is the list of its entries in use, so
-- `nr_regions` is the list's length and an index is a number; the memmove calls put an entry in or
-- take one out. A call takes the state and returns the new one. It ends in `ok`, in `bug` where a
-- BUG_ON or a panic stops the kernel, in `fault` where it reads behind the entries in use or
-- through NULL, or in `out_of_fuel` where a fuel of the model was too small. 0 and -ENOMEM are the
-- two values of Status; WARN and pr_debug only print. Physical addresses wrap at 2 ^ 64, an int and
-- each half of the u64 index at 2 ^ 32, with -1 as 0xffff_ffff.
--
-- A resource is a record in a store by its address, with NULL as 0 and no name, and a pointer to a
-- pointer is the field it points at. A call changes the store as the code's assignments do, one
-- after the other. It holds resource_lock from start to end, so calls do not interleave, and the
-- lock is left out.
--
-- Sort has the array as a list of elements, so the byte offsets are indices and the three swap
-- functions are one swap of two elements; `cmp_func(x, y) < 0` is a Boolean test. What a read finds
-- behind the array is an argument, so that it can be anything. The inner loop has as many rounds as
-- elements, since its index at least doubles.
--
-- For the string library the memory is a function from addresses to bytes, and a function that
-- writes returns the new memory, so areas may overlap as they do in C. A pointer is a number, NULL
-- is 0, and an area does not wrap around the end of the address space. A byte is its unsigned
-- pattern, and so is an int that a comparison returns.
--
-- A map from the firmware is the list of its entries in use. sanitize_e820_map does not change the
-- old map before its end, so a pointer into it is an index; its static arrays are lists, and have
-- room for E820MAX entries, with which it is called.
--
-- A format is the list of its bytes in front of the NUL. The arguments are a function from their
-- place to a 64-bit word, and the resources that %pR takes are a function from their address. The
-- two signed shorts of a printf_spec are 16-bit patterns, and the loops that count one of them down
-- have their number of rounds written out, with the wrap-around at the least value. What is printed
-- goes to the memory of the string library. A string that is printed is shorter than 2 GB, so that
-- its length fits an int. The array `sym` of resource_string is a memory of its own without an end,
-- so the model does not show whether the text fits it.
--
-- The three arrays of the slots and the page table of the fixed addresses are functions from an
-- index; an entry is a page frame and a protection, or nothing. FIXADDR_TOP and FIX_BTMAP_BEGIN are
-- arguments. This code compiles for 32 bits only, so an unsigned long has 32 bits in it; a physical
-- address has 64, as with PAE. The BUG of __early_set_fixmap for an index behind the fixed addresses
-- is left out: the enum ends with FIX_BTMAP_BEGIN, and the indexes here are this at most.
--
-- The video memory is a function from addresses to 16-bit words. An unsigned int of the console
-- wraps at 2 ^ 32, and an address at 2 ^ 64. The fields that only vgacon_init and vgacon_set_origin
-- set stand in a record of their own. The registers of the card, with the cursor that it shows, are
-- left out. con_write keeps the state of its parser from byte to byte, and starts anew with each
-- call.
--
-- A driver of a terminal is a record of its operations on a state of any type. The locks of a
-- terminal and the fields that writing does not read are left out. -1 of do_output_char is none. A
-- write has the bytes of user memory as a list, and tty_write finds the operations that it tests
-- for.
--
-- The ranges that for_each_mem_pfn_range visits are a list, and the two limits of a zone a record.
-- A walk has one round more than there are regions.
--
-- The configuration. CONFIG_PHYS_ADDR_T_64BIT and CONFIG_HAVE_MEMBLOCK_NODE_MAP are set,
-- CONFIG_NODES_SHIFT is not, so MAX_NUMNODES is 1; the L1 cache line has 64 bytes and a page 4096.
-- The address of the kernel's end, which the linker gives, and slab_is_available are arguments.
--
-- The loops. Those that recursion on a list or an index does not end by itself count their rounds:
-- memblock_add_range has one more round than entries, since its index goes up in each;
-- memblock_isolate_range has three rounds for an entry and one more, since an entry is split twice
-- at most; a search has one round for each entry of the two arrays and three more, since each call
-- of an iterator moves an index on. memblock_trim_memory has two rounds more than entries. The
-- loops over siblings, and the way down the tree, have their fuel as an argument. A loop on a
-- string that only its NUL ends takes its fuel as an argument and returns none without enough of
-- it; as many rounds as the string has bytes with its NUL are enough. The loop of vsnprintf has two
-- rounds for a byte of the format and one more, since a round reads a byte of it or follows one
-- that took a width or a precision from the arguments. The loop of number for octal and hex digits
-- has 22 rounds, the octal digits of a 64-bit number. The loops of n_tty_write have their fuel as
-- an argument and return none without enough of it; on a driver with room one round more than there
-- are characters is enough.
--
-- Not modelled. memblock_dump_all and e820_print_map print. The clearing of the block and its
-- virtual address are left out. Of the page allocator only the sizes of zones are here, and neither
-- console_init nor the input side of the terminals; drivers/tty/tty_ldisc.c needs an allocator that
-- is a stub. The rest of the kernel is registers, ports, page tables and stubs.
pub mod Common
pub mod Word
pub mod Memblock
pub mod Strings
pub mod Resource
pub mod Sort
pub mod Printf
pub mod E820
pub mod Ioremap
pub mod Vt
pub mod Tty
pub mod Zones
