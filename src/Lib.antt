-- ===== src/Lib.antt =====
-- VeriCross runs RISC-V programs, among them those of benchmark/source, on a functional core and
-- on a verilated core side by side and compares them instruction by instruction. This library
-- models the simulator under sim/ and core_wrapper/, from the command line to the end of the
-- simulation, and some of the benchmark programs.
--
-- The parts. The cores talk to one memory through the interface records of sim/core.hpp. In each
-- cycle a core fills in its memory interface (`drive`), the memory latches it (`drive`,
-- `drive_replica`) and answers it (`update`, `update_replica`). Every core writes to a write
-- buffer of its own, and a word goes to the array when all cores have written it
-- (`cleanup_wb`). The functional core decodes and executes one instruction per cycle and logs it,
-- and the validator compares the log entries of the two cores. The main loops run the cores and
-- the memory by turns, call the validator and the emulation of system calls, write the log and
-- stop the cores. `main` makes the cores that the command line asks for, the memory, the loader,
-- whose sections it writes to the memory, and the emulation, and calls one of the loops.
--
-- The files.
--   Base, Bits: shared names, arrays in lists, order; the laws of bitwise operations on numbers
--     that are cut at a bit, fields and byte lanes.
--   Bench/Crc32: benchmark/source/CRC32/crc_32.c; Crc32/Steps is the division one bit at a time.
--   Bench/Bitcount: the bit counters of benchmark/source/bitcount. Bitcount/Population is the
--     number of ones of a word, Bitcount/Words the lines of `bitcount` on the bytes of a word,
--     Bitcount/Steps the rounds of the loops, Bitcount/Recursion the recursive counters.
--   Bench/Bitarray, Bench/Bitfiles: bitarray.c and bitfiles.c of benchmark/source/bitcount.
--   Bench/Dijkstra: the queue and the search of benchmark/source/dijkstra. Dijkstra/Walks says
--     what the distances stand for, Dijkstra/Measure and Dijkstra/Ends count the rounds,
--     Dijkstra/Relaxing and Dijkstra/Shortest are about the result.
--   Sim/Common: sim/common.hpp and sim/core.hpp. `CoreInstructionIf` and `CoreMemoryIf` are
--     `CoreInstructionIF` and `CoreMemoryIF`.
--   Sim/Memory: `class Memory` of sim/memory.cpp. `Memory/Buffer` is the `std::map` of a write
--     buffer as a sorted association list. `read_4b`, `write_4b`, `read_1b`, `write_1b` and
--     `write_mask` stand in Sim/Memory, `cleanup_wb` in Memory/Cleanup, the four port operations
--     in Memory/Ports, the public `read` and `write` in Memory/Bytes. `view` is the word that a
--     core sees, and the abstract specification of the ports is its change.
--   Sim/Core: `class Core` of sim/core.hpp, as the record of its virtual functions; `CoreLaws` is
--     what assignments from outside leave alone, `IsReference` a kind of core that executes one
--     instruction per cycle.
--   Sim/Riscv: the flags and identifiers of sim/riscv.hpp; Riscv/Decode and Riscv/Imm are the
--     constructor of `RiscVInstruction` and `get_imm` of sim/riscv.cpp; Riscv/Isa holds the
--     formats of the manual, and Riscv/Flags and Riscv/Table compare the two. Riscv/Log is
--     `class RiscVLogInfo`; Log/Fields gives the value of a load by the manual, Log/Loads the
--     words of the memory, Log/Lines the lines of loads and stores.
--   Sim/FunctionalCore: sim/functional_core.cpp, with `drive` in FunctionalCore/Exec;
--     FunctionalCore/Class is the class behind the interface, FunctionalCore/Loading the loads.
--   Sim/Loader: `make_jal` of sim/loader.cpp; Loader/Files is what its constructor finds in the
--     files, Loader/Image the constructor, and the loop of sim/main.cpp that writes the sections,
--     Loader/Boot the word at the initial PC, Loader/Start its execution.
--   Sim/Validator: `class Validator` of sim/sim_concurrent.cpp.
--   Sim/SysCall: sim/syscall.cpp; SysCall/Cases has the cases of `emulate`, SysCall/Table the
--     table of descriptors, SysCall/Outcomes what a call can do, SysCall/Step what it does to all cores, SysCall/Opened
--     sequences of calls after an `open`, SysCall/Paths `read_path`.
--   Sim/Loop: loops on fuel. Sim/Single: `sim_single` of sim/sim_single.cpp. Sim/Concurrent:
--     `sim_concurrent` of sim/sim_concurrent.cpp, with its ring buffer in Concurrent/Ring;
--     Concurrent/Termination/Kept and History relate the report of a mismatch to the log.
--   Wrapper: core_wrapper/. Wrapper/Kronos, Wrapper/Rvcorep and Wrapper/Faulty are the classes
--     `KronosCore`, `RVCorePCore` and `KronosCoreFaulty`.
--   Main: sim/main.cpp. Main/Number is `parse_scaled_number`, Main/Args `checkarg`, Main/Cores the
--     objects that are made, Main/Run `main`.
--   Tests: the models at concrete inputs.
--
-- The state. An object is a record, and an operation takes it and returns the new one. A
-- `uint32_t` is a native number with its wrap-around written out, and an `int32_t` is its bit
-- pattern. The word array and the register file are functions of the index. The buffer of the
-- public `read` and `write` is a list of bytes. A shift by the width of the word or more is
-- `undefined` in the model of `drive`. The loops of the simulator run over the entries of a
-- buffer, over the replicas or over the bytes, and are recursions on those. The bit counters that
-- loop while a word is not zero take fuel: a word has 32 ones, eight nibbles or four bytes at
-- most, and `bit_count` takes a round more, in which it may overflow. The search of Dijkstra takes the number of its rounds. The wait for an instruction
-- of the verilated core runs over VCORE_TIMEOUT cycles. The two main loops take the number of
-- their rounds: with a reference core that executes an instruction per cycle, the limit of
-- instructions and three more are enough. A round that comes to undefined behaviour ends a loop
-- with `undefined`.
--
-- The parameters. The calls of the host's system (`Host`), the classes that Verilator generates
-- (`Verilated`), the random generator of the faulty core (`Random`), the contents of the files
-- and the answers to opening the log and entering the directory (`Files`, `Setting`), and the
-- options that `getopt_long` finds. What a constructor leaves unset is a parameter as well.
--
-- Not modelled: the overflow of the path costs of Dijkstra and of the next file descriptor, which
-- are numbers here; the text that std::format makes of its arguments, the printed usage, messages and
-- statistics, the destructors, the hardware descriptions of core_wrapper, and the benchmarks that
-- are not listed.
pub mod Base
pub mod Bits
pub mod Bench
pub mod Sim
pub mod Wrapper
pub mod Main
mod Tests
