-- ===== src/Lib.antt =====
-- AmalgamASM: the assembler of src/ and the legacy Kyanite machine, modelled and verified.
--
-- The repository holds an assembler and the devices of the machine that it assembles for.
--
-- Parts and files (paths from the root of the repository):
--   - Util/Map: the hash map of src/util.c (hm_make, hm_get, hm_put, hm_rehash, hm_erase,
--     hm_free_to). A key is an address with a text; a bucket is a list. The assembler keeps its
--     symbols and sections in such maps.
--   - Util/Set: the hash set of src/util.c, on the buckets of the map; Util/Set/Bags: as a bag of texts.
--   - Util/List: the linked lists of src/util.c (ll_make to ll_free_to), as nodes at addresses with a
--     pointer to the last link. Util/List/Chain: a list that stands for a sequence; Insert, Remove, Pop
--     and Release: one call each; Calls: runs of calls, with the allocator as a parameter.
--   - Util/Array: the arrays of src/util.c; a cell that nobody wrote is an argument.
--   - Asm/Number: strtoll with base 0 and the %ld of snprintf, written out, as the assembler uses
--     them on words of 64 bits.
--   - Asm/State: cmpl_t, symbols, sections and errors, with the helpers of src/cmpl_data.c and
--     src/cmpl_internal.c that write them. A section pointer is an index into the list of sections.
--   - Asm/Symbols: the symbols as an abstract map, over Asm/State and Util/Map.
--   - Asm/Expr and Asm/Yard: the expression evaluator of src/cmpl_internal.c, first the operators
--     (_parse_op, _parse_lit), then the loop (_parse_expr, helper_expr_parse).
--   - Asm/Lexer: the lexer of src/cmpl_internal.c (helper_file_parse), which hands lines of words
--     to the loop over lines.
--   - Asm/Data: the directives of src/cmpl_data.c. Asm/Insn: its instruction encoders, which call
--     the evaluator for immediates. The opcodes are numbers that the callers pass.
--   - Asm/Layout: the invariant of the sections, that the address is the number of the bytes.
--   - Asm/World: what the assembler takes from outside: the files, the opcode macros of
--     src/compile.c, which no file defines, the conversions of reals, and the allocator.
--   - Asm/Source: the lists of lines of src/cmpl_control.c, their copies, and the substitution of a
--     name. Asm/Control: its conditionals, macros and repetitions.
--   - Asm/Table: which mnemonic and which directive of src/compile.c is handled in which way.
--     Asm/Statement: the body of the loop of compile, one line, carried out or put by for an open
--     block. Asm/Compile: the loop over files and lines, and the images of the sections.
--   - Asm/Link: the linker of src/compile.c (helper_section_link, _parse_linker, link), which lays the
--     images of all files into one output section, as a script says.
--   - Scheduler: execute and execute_device of src/aasm.c, the walk over the tree of devices, with the
--     executors as a parameter. Scheduler/Plan: the calls of one tick, read off the tree.
--   - Kyanite/Bus, Kyanite/Bus/Board, Kyanite/Bus/Hub, Kyanite/Timer: the RAM, the board, the hub and
--     the timer of src/kyanite_legacy.c. A status word is the record of its named bits. The board
--     hands requests to the RAM and replies to the CPU; timers wake or interrupt the CPU.
--   - Kyanite/Cpu: the CPU of src/kyanite_legacy.c with its cache. Kyanite/Cpu/Decode: the opcodes of
--     aasm/kyanite/instruction.h. Kyanite/Cpu/Alu and Kyanite/Cpu/Parser: one instruction
--     (kyanite_legacy_cpu_normal_parser). Kyanite/Cpu/Executor: one tick of the CPU on the bus of
--     its board (kyanite_legacy_cpu_executor), with its sleeps and detours.
--   - Base: lists over the native numbers, texts as lists of bytes, words. Examples: inputs.
--
-- An operation that can meet undefined behaviour returns a Run: ok, fault for undefined behaviour,
-- or out_of_fuel; one of the CPU returns an Option, none for undefined behaviour. The loops of
-- _parse_expr and helper_file_parse run on fuel, the length of their text; each pass of their bodies
-- takes one character at least. The loop of compile runs on fuel that the caller gives, one for each
-- line and for each file that is opened or left: a file that includes itself never ends, so no
-- number is enough for every program.
--
-- The walk of the scheduler runs on fuel, the depth of the tree, and the loops over a linked list on
-- its size.
--
-- Not modelled: kyanite_legacy_cpu_flags_parser, which is declared and not defined, and an argument
-- of the model; what the hub does to a device that is no kyanite_bus_t; the bits of a status word that
-- main.h does not name. Where the assembler uses linked lists, its model has sequences, and hm_free_to
-- gives one. Elsewhere than in Util/List the freeing of memory has no effect in the model, and
-- allocation never fails. src/kyanite.c and most of src/aasm.c are comments.
pub mod Base
pub mod Kyanite
pub mod Scheduler
pub mod Util
pub mod Asm
pub mod Examples
