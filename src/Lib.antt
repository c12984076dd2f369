-- ===== src/Lib.antt =====
-- The kernel of this repository, a small RV64 operating system: from machine mode through the
-- address space of the kernel to a user program, and what happens between a trap of that program
-- and its return.
--
-- The parts, with the code that each file models:
--
--   Platform        include/utility/PlatformInfo.hpp: the memory that the boot code reports.
--   Csr             include/utility/CSR.hpp: the control and status registers and their
--                   accessors.
--   Boot            src/kernel/Machine.cpp, src/utility/CSR.cpp, and the set-up of trap entries
--                   in src/kernel/Traps.cpp.
--   Allocator       src/kernel/PhysicalPageAllocator.cpp: a bump allocator of 4 KiB pages, its
--                   two ends as a record. Allocator.Align, Allocator.Page and Allocator.Run hold
--                   its theorems, on one call and on a run of calls.
--   Ram             The physical memory, a function from addresses to bytes, and the accesses of
--                   the code to it.
--   AddressMapping  include/utility/AddressMapping.hpp: the direct map and the early identity
--                   map.
--   Pte             The Sv39 fields and entry bits of include/kernel/Paging.hpp and
--                   src/kernel/Paging.cpp.
--   Paging          src/kernel/Paging.cpp: root tables, mapping, mapping of ranges, and queries.
--                   Paging.Map, Paging.Range and Paging.Start are about these; the Supply of each
--                   is about the pages that it takes, and when it cannot fail.
--   Kernel          paging_init of src/kernel/Paging.cpp: the address space of the kernel.
--                   Kernel.Ranges is about sequences of ranges, Kernel.Space about the result,
--                   Kernel.Rights about what it rules out, Kernel.Alias about frames with two
--                   addresses, and Kernel.Success about when it succeeds.
--   Process         src/kernel/ProcessMemory.cpp and src/kernel/ProcessLoader.cpp.
--                   Process.Layout, Process.Region, Process.Copy and Process.Program follow their
--                   functions; Process.View is about the image in memory. Paging.View is the
--                   memory of a machine as the page table shows it.
--   User            src/kernel/User.cpp: the registers that a user program starts with.
--   Machine         src/arch/riscv/UART.cpp, include/utility/Debug.hpp, src/utility/printHex.cpp,
--                   src/kernel/panic.cpp and the accesses to sstatus of include/utility/CSR.hpp,
--                   on a machine of mapped memory, sstatus, and the two directions of the UART.
--                   Machine.Uart has the driver of UART.cpp on the registers of a device.
--   TrapFrame       include/kernel/Traps.hpp: the saved registers.
--   Syscall         src/kernel/Syscall.cpp. Syscall.Copy and Syscall.Fill are about the copies
--                   between user and kernel memory, Syscall.Write, Syscall.Read, Syscall.Fill and
--                   Syscall.Handle about the calls. Syscall.Same is about what the calls leave
--                   alone.
--   Trap            src/kernel/TrapHandler.cpp and the C++ handlers of src/kernel/Traps.cpp.
--                   Trap.Laws is about one trap, Trap.Run about a program and its traps in turn,
--                   Trap.Program about the first program.
--   Memory          src/utility/memory.cpp. Memory.Move, Memory.Text and Memory.Number are about
--                   areas, texts and numbers.
--   Dtb             src/utility/DTB.cpp, with the functions of libfdt as a record of parameters.
--                   Dtb.Cells, Dtb.Search and Dtb.Discovery are about numbers, loops and
--                   platform_info_init.
--   Supervisor      src/kernel/Supervisor.cpp and user_task_init of src/kernel/User.cpp: the
--                   sequence from the device tree to user mode. Supervisor.Start is about where
--                   it ends, and Supervisor.Enter about when that is in the first program.
--                   Supervisor.Dispatch has src/arch/riscv/boot/dispatch_s.cpp; dispatch_m.cpp is
--                   in Boot.
--   PagingTests     include/utility/PagingTests.hpp: the self tests. PagingTests.Walk is about
--                   the one that prints how the kernel is mapped, PagingTests.Faults about stores
--                   that fault.
--   Base            Shared types and operators, 64-bit arithmetic, and the laws of the bit
--                   operations.
--
-- How they interact: Paging asks the Allocator for the pages of its tables and reads and writes
-- them through AddressMapping in Ram. Kernel and Process are sequences of calls of Paging.
-- Supervisor runs Dtb, the Allocator, Kernel, Process and User in turn; Boot hands over to it,
-- and User to a program. Trap hands an ecall of a program to Syscall.
--
-- Words: a number is the native natural number, and a 64-bit operation is written with its
-- wrap-around. The bit operations are the native ones; Base.Bits relates those the code makes to
-- division, and Base.BitAt says what they do to a single bit.
--
-- Paging: the functions of the code come twice, for the early identity map and for the direct
-- map, with the same text but for the conversion of physical addresses. Here they are one
-- function with that conversion, the stage, as an argument. A pointer is the address that it
-- converts back to; the direct map begins at 2^64 - 2^38, so that physical addresses are assumed
-- to be below 2^38. The loops of map_range and map_region have a round for each page as their
-- fuel and one to spare, which is shown to be enough. A page table is described by Paging.Tree:
-- every page has an owner, no two tables share a page, each slot that is in use leads to the
-- table that it should lead to, and the pages of a process are owned as contents. A translation
-- is read from the tables at once, so that sfence_vma does nothing. The accesses of the late
-- stage to tables and pages do not fault: they are made as if the direct map had every physical
-- address, while it has the RAM. Supervisor.Enter asks that the allocator lies in the RAM, and is
-- about the direct map having all of its memory then.
--
-- Machine: memory is by virtual address, as the running page table maps it, with the user and the
-- write bit of each page, and each address has a place, the physical address behind it: a store
-- shows at every address of its place, as the direct map shows the pages of a program to the
-- kernel too. An access does not read the page table itself; Trap.Program and PagingTests.Faults
-- take a machine whose memory is what the page table shows, by Paging.View. A run ends with a
-- result, with a page fault of the supervisor, waiting for input that never comes, or halted in a
-- wfi loop. A fault in the kernel would come back as a trap of its own, which Trap answers with a
-- panic. The loop of write has a round for each 256 bytes as fuel; that of read takes a byte of
-- input in each round, so that one more than the input left is enough. A search of Dtb gives none
-- when its fuel is used up, with a round for each node, and the loop over the strings of a
-- property likewise, with its length as fuel. The driver of the UART polls once for each unit of
-- its fuel, and needs one more than the reads of the status before a byte is there. A loop of
-- Memory over a text ends at its NUL, with any fuel above the length of the text.
--
-- A control and status register holds what was last written to it. What the linker places, the
-- addresses of sections, stacks and entries, is the fields of a record of symbols, and the image
-- of the first program is an argument. user_enter is assembly, and an argument of
-- enter_user_mode.
--
-- Not modelled: assembly; libfdt, a copy of a library; and test_data_exec_fault of
-- include/utility/PagingTests.hpp.
mod Base
mod Platform
mod Csr
pub mod Allocator
pub mod Ram
pub mod AddressMapping
pub mod Pte
pub mod Paging
pub mod Machine
mod TrapFrame
pub mod Syscall
pub mod Trap
pub mod Boot
pub mod User
pub mod Process
pub mod Kernel
pub mod Memory
pub mod Dtb
pub mod Supervisor
mod PagingTests
