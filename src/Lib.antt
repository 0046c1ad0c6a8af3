-- ===== src/Lib.antt =====
-- lmalloc is a set of arena allocators, compared in a system that stores sensor data. An arena is a
-- block of memory with a cursor: an allocation moves the cursor on, and a pop, a seek or a free moves
-- it back.
--
-- The parts, and how they meet:
-- - src/allocators/u_arena.c keeps an arena in the process. UArena models the arena and its operations
--   (`ua_alloc`, `ua_pop` and the others keep their names), UArena/Create where its memory comes from,
--   UArena/Scratch the marks that give space back and the arenas of a thread.
-- - src/modules/karena/karena.c is a kernel module with a table of 100 arenas. KArena models the table and
--   the handlers of single arenas, KArena/Ioctl the file operations: `karena_ioctl` with its copies from
--   and to the caller, `karena_mmap`, `karena_vm_fault`, `dev_open` and `dev_release`.
-- - src/allocators/karena.c drives the module from a process. KaClient models it over KArena: a `World` is
--   the module's state with the process's descriptor.
-- - src/modules/oldkarena/okarena.c is the kernel module before it, which finds an arena by the memory area of
--   an address. OldKArena models its commands over the objects that areas point to.
-- - src/allocators/sdhs_arena.h picks one of the two arenas for the sensor system. SdhsArena is that
--   interface as a record, with both arenas as its values; its allocation is the timed one of Wrappers, which
--   faults when the collection of times is full, with a `Timer` that all arenas share.
-- - src/sdhs/Common/SensorDataPipe.c hands buffers from one thread to another. Pipe models each atomic
--   action of the two threads as a step, so that every interleaving is a path of steps; Pipe/Create models the memory
--   of a new pipe in an arena. The writing thread has `CurBuf` of MbRun, which a flush leaves behind.
-- - src/allocators/allocator_wrappers.c times allocations. Wrappers models each wrapper with what it records.
-- - src/sdhs/Common/Thread.c stops threads. Thread models the handshake over the mutex and the condition
--   variable, again with every interleaving.
-- - src/sdhs/Common/ThreadGroup.c starts groups of threads and waits for them. ThreadGroup models the blocks
--   of a group and the start, ThreadGroup/Monitors the monitors and the thread that waits, step by step.
-- - src/sdhs/CommProtocols/Modbus.c receives the frames that fill the pipe. Modbus models the socket as the
--   pieces in which the bytes arrive, and the frames of src/sdhs/DevUtils/ModbusTestServer.c.
-- - src/sdhs/DataHandlers/ModbusWithPostgres is one thread that fills the pipe from the socket and one that empties
--   it into the database. DataHandlers/Receiver models `MbRun` from what each call on the socket answers,
--   DataHandlers/Inserter `PgRun` from what each wait answers; the waits between the two threads are those of Pipe.
-- - src/sdhs/DatabaseSystems/Postgres.c writes the rows. Postgres models their conversion to the COPY format, with
--   Postgres/Decode a reader of that format, Postgres/Values the numbers that it finds, Postgres/Insert the transaction, Postgres/Metadata the columns, and
--   Postgres/Prepare `PgPrepareCtx` from the schema to the queries and the sizes of the pipe.
-- - src/metrics/timing.c writes the times that the tests take. Timing models the text of a span, in its ten formats.
-- - src/lm.h is the library of strings, logs and files that the programs share. Lm/Strings models the strings
--   in an arena, with `StringWorld` for the arenas, headers and bytes; Lm/Log the log and its lock; Lm/MemSize
--   the sizes that the configuration is written in; Lm/Files the loading of a file.
-- - src/sdhs/Sdb.h is the library that lm.h was made from. Sdb models it part by part, Sdb/Strings over the
--   interface SdhsArena, and compares each part with the one of lm.h or u_arena.c.
--
-- How the code is read:
-- - A machine word is a natural number; `add_size` and `sub_size` of Common/Words wrap at 2^64. A pointer
--   is its address, 0 is NULL, and memory is a function from addresses to bytes.
-- - A function that changes its argument returns the new value; a fault is `none`. Handlers of the kernel
--   module return a `Ret` with the state.
-- - What the C library and the kernel answer (`malloc`, `mmap`, `vmalloc`, `PAGE_ALIGN`, `vmalloc_to_page`,
--   the process number, the size of a cache line) are parameters.
-- - Loops go over tables, lists or a count, and end with them. Only the scans for the end of a text run on
--   fuel (`strlen`, `sdb_strlen`, `sdb_strnlen`, `sdb_get_next_token`): it is the size of the address space, or
--   the greatest count, and what they find within it is proved to be returned.
-- - A log call on a lock that is held does not return: only the caller could release it.
--
-- Not modelled: the text of log lines, the times that the writing thread of the pipe records, `ua_info_string`, the registration of the device and the closing of descriptors. Each
-- file operation of the kernel module is one step, although only `find_open_slot` takes the module's mutex:
-- two operations that run at once are not modelled. A release of the module's file is a step of its own.
-- Times (src/sdhs/Common/Time.c) and the averages of src/metrics/timing.c are kept out since they are computed with
-- floating point numbers, and what
-- reads the configuration files and opens sockets since it is input and output.
--
-- Common holds what the parts share: words, tests, lists over the native numbers, and bytes.
pub mod Common
pub mod UArena
pub mod KArena
pub mod KaClient
pub mod OldKArena
pub mod SdhsArena
pub mod Wrappers
pub mod Pipe
pub mod Thread
pub mod ThreadGroup
pub mod Modbus
pub mod DataHandlers
pub mod Lm
pub mod Postgres
pub mod Sdb
pub mod Timing
