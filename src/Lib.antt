-- ===== src/Lib.antt =====
-- NonOS: a Nachos kernel with a simulated MIPS machine. This library models the part of it that
-- runs user programs in their own address spaces, its files and directories, and its threads.
--
-- The program's parts and how they interact
--
-- - The simulated machine (code/machine) fetches an instruction at PCReg, decodes it and runs it.
--   Every fetch, load and store goes through Machine::Translate, which turns a virtual address
--   into an offset of the main memory by a page table or a TLB, or answers with an exception. An
--   exception is handed to the kernel by RaiseException.
-- - The kernel's user-program side (code/userprog) gives each process an AddrSpace, whose page
--   table takes its frames from the one FrameProvider, which keeps a BitMap of the physical
--   frames and a counter of the free ones. do_Sbrk makes a page table grow; ReleaseFrames gives
--   the frames back.
-- - The file system (code/filesys) keeps file names in Directory tables, and the free sectors of
--   the disk in the same BitMap class.
-- - Threads and their scheduler, synchronisation, devices and the network (code/threads,
--   code/network and the devices of code/machine) run beneath and beside these.
--
-- Which file models which part
--
-- - Base: the shared library. Base/Failure is the result of code with an ASSERT in it (done, or
--   aborted), Base/Lists are C arrays, Base/Apart is the separation of frames, Base/Arith,
--   Base/Bits and Base/Digits are remainders and the bits of unsigned words.
-- - BitMap: code/userprog/bitmap.h and bitmap.cc. The record BitMap has numBits, numWords and the
--   word array; mark, clear, test, find, find_start, num_clear and init are the methods and the
--   constructor. BitMap/View reads the words as a set of indices; BitMap/Find and BitMap/Count
--   are about the searches and the counts.
-- - FrameProvider: code/userprog/frameprovider.h and frameprovider.cc. get_empty_frame,
--   release_frame and init, on the bitmap and the counter; FrameProvider/Laws has the invariant
--   that ties them.
-- - Machine: code/machine/machine.h, code/machine/translate.h and translate.cc. translate,
--   read_mem and write_mem on registers, main memory, page table and TLB. Machine/Translate is
--   the table of outcomes, Machine/Refused says when a write is refused, and Machine/Safe,
--   Machine/Memory and Machine/Unchanged are about what an access reaches and leaves.
-- - Mips: code/machine/mipssim.h and mipssim.cc. Mips/Decode is Instruction::Decode with its two
--   tables, Mips/Exec, Mips/Loads and Mips/Stores are the cases of the switch of
--   Machine::OneInstruction (one_instruction, execute_op), Mips/Registers is the register file
--   with DelayedLoad, Mips/Mult is Mult. Mips/Multiply and Mips/Product are about the multiplier,
--   Mips/Overflow about the traps of ADD, ADDI and SUB, Mips/Kept, Mips/Cases and Mips/Ready
--   about the registers over a whole step.
-- - AddrSpace: code/userprog/addrspace.h and addrspace.cc. init_pages is the page table's part of
--   both constructors, do_sbrk, release_frames and restore_state are the methods.
--   AddrSpace/Isolation joins the address space with the machine.
-- - Files: code/filesys/filehdr.h, filehdr.cc, openfile.h and openfile.cc. read_at, write_at and
--   byte_to_sector on a disk of sectors; Files/Space has allocate, extend and deallocate with the
--   map of free sectors. Files/Buffers is about buffers and headers in their sectors,
--   Files/Contents, Files/Writes and Files/ReadBack see a file as the array of its bytes,
--   Files/Sectors is about ByteToSector, Files/Fresh and the children of Files/Space about the
--   sectors that a file takes and gives back.
-- - Directory: code/filesys/directory.h and directory.cc. find, add, remove and init;
--   Directory/Names is strncmp and strncpy.
-- - LinkedList: code/threads/list.h and list.cc. append, prepend, sorted_remove, remove and
--   sorted_insert on a store of elements. LinkedList/Chain says which sequence a list stands for,
--   LinkedList/Ends, LinkedList/Sorted and LinkedList/Insertion are about the operations.
-- - Interrupt: code/machine/interrupt.h and interrupt.cc. schedule, yield_on_return and
--   check_if_due on the clock and the queue of pending interrupts, which is a LinkedList. A
--   handler is a parameter.
-- - Disk: code/machine/disk.h and disk.cc. read_request and write_request take and put a sector of
--   the host's file at once and schedule the interrupt after compute_latency, with Interrupt.schedule.
-- - Synch: code/threads/synch.h and synch.cc. p and v, acquire and release of one thread up to where it
--   sleeps; Synch/System has the steps of threads that share a lock, Synch/Exclusion their invariant.
-- - Threads: code/threads/thread.h, thread.cc, scheduler.h and scheduler.cc. yield_thread, sleep,
--   finish_thread, fork and run on the threads, the ready list and the machine's registers.
--   new_thread is the constructor with GetNewThreadId. Threads/State says what holds between two
--   calls, Threads/Run and Threads/Calls are about the switch and the calls, Threads/Created is
--   about new_thread, Threads/Stack about the writes of a thread to its own stack, which stay
--   above the word that CheckOverflow looks at; Threads/System has all steps, Threads/Fairness is about the order of
--   the ready list, Threads/Registers about the saved registers.
--
-- How the code is modelled
--
-- A class is a record, a method a function from the object to its result and the new object. A
-- failed ASSERT is the outcome `aborted`. RaiseException is not entered: a function returns the
-- exception and the address to its caller as a value, and the machine at that point. An int of
-- the machine is its 32-bit pattern, a natural number below 2 ^ 32, and every operation that can
-- wrap is written with its remainder; sizes, indices and counters of the kernel are natural
-- numbers. -1 as a result is `none`; where the code stores it in an unsigned field, it is 2 ^ 32
-- - 1. Memory from `new` is an argument, so nothing rests on what it holds. The host is
-- little-endian, so the byte-order macros are the identity. An array is a list; reads and writes
-- outside it have no effect that a theorem relies on.
--
-- A loop is structural recursion on the number of rounds that are left, which the caller computes
-- from the bound of the source's loop: numBits for the bitmaps, tableSize for directories,
-- TLBSize for the TLB, the number of pages for address spaces, the number of elements in the
-- store for SortedInsert, and 32 for Mult, whose early exit is part of the loop. No loop can run
-- out of rounds before the source's loop ends. ByteToSector, which opens the undirected block as
-- a file and can so call itself without a bound, follows a given number of headers; two are
-- enough for every well-formed file.
--
-- What is not modelled, and why
--
-- SetLevel, OneTick and Idle of the interrupts, which can switch threads, are steps of the
-- environment. SWITCH is assembly: what follows it is done by the thread that runs next. A thread
-- that writes past the end of its stack is not followed: CheckOverflow is there to fail then. Of
-- locks around the frame provider and the ids of threads, each function is the code between
-- acquiring and releasing it. The loading of an executable, the stacks and user threads of an
-- address space, and system calls need the file system and the scheduler. Machine::Run never
-- returns and only repeats a step. The console, timer and network devices, the FileSystem class,
-- and the network protocols are outside this library. A call of the synchronous disk reads or
-- writes a sector at once: that other threads run until the disk's interrupt comes is not seen
-- here. Printing, debugging and statistics have no effect on the state that is modelled.
pub mod AddrSpace
pub mod Base
pub mod BitMap
pub mod Directory
pub mod Disk
pub mod Files
pub mod FrameProvider
pub mod Interrupt
pub mod LinkedList
pub mod Machine
pub mod Mips
pub mod Synch
pub mod Threads
