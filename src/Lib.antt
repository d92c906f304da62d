-- ===== src/Lib.antt =====
-- The captain server framework: a verification library.
--
-- captain (captain/) is a C++ framework for network servers. Its parts are
--   - ByteArray (captain/bytearray.cpp): a stream of bytes over a chain of memory nodes of one size,
--     in which messages are written and read: numbers, strings, buffers for scattered input and output;
--   - Timer and TimerManager (captain/timer.cpp): an ordered set of timers, which the scheduler asks
--     for the callbacks that are due;
--   - Scheduler, Fiber and IOManager (captain/scheduler.cpp, fiber.cpp, iomanager.cpp): fibers on
--     threads, driven by epoll;
--   - Stream, Socket, Address, FdManager and the hooks (captain/stream.cpp, socket.cpp, address.cpp,
--     fd_manager.cpp, hook.cpp): input and output;
--   - Logger and LogFormatter (captain/log.cpp): loggers, their appenders and the patterns they write by;
--   - the HTTP server (captain/http): messages, parser, session, servlets and their dispatch.
--
-- Files and code:
--   - Base: names all files share. `Outcome` is the result of code that can throw or fault: `ok`, or a
--     `fail` with its cause; `Base/Slices` has the list lemmas on parts of a buffer.
--   - ByteArray: captain/bytearray.cpp. The state is a record with the fields of the class; the chain
--     of nodes is a list of blocks, a pointer is an index, null is `none`. `new`, `add_capacity`,
--     `write`, `read`, `read_at` (the const overload), `set_position`, `clear` and `to_string` are
--     the members of these names.
--     ByteArray/Fixed: the numbers of fixed width. ByteArray/Varint: numbers in groups of seven bits
--     and the zigzag code. ByteArray/Text: strings and `toHexString`. ByteArray/Buffers:
--     `getReadBuffers`, `getWriteBuffers` and the two file operations.
--     ByteArray/Invariant: `IsValid`, when an array is well formed, and `contents`, its file.
--     HasRoom in ByteArray/WriteFile says that `addCapacity` has made enough room; it is a hypothesis,
--     since `addCapacity` does not always do so.
--   - Timer: captain/timer.cpp. The set is a list without repetitions, ordered as the comparator orders
--     it; a timer is its address, and its fields stand in a store. The clock is an argument.
--     Timer/Invariant: `IsValid`, when the timers are well formed.
--   - IoManager: captain/iomanager.cpp, the table of registered events. `add_event`, `del_event`,
--     `cancel_event` and `cancel_all` are the members of these names, `ready_in` is the body of the
--     loop of `idle` for one ready descriptor. `epoll_ctl` of the system is a parameter; tasks that are
--     given to a scheduler are results. IoManager/Invariant: `IsValid`, when the table is well formed.
--     IoManager/Idle: the rest of `idle`, over Timer and Scheduler: when it stops, how long it waits,
--     the timers that are due. IoManager/Pass: a pass of its loop, `idle_pass`, with the
--     tasks of this scheduler queued and those of others as a result; the reports of `epoll_wait` are
--     a parameter. Between two passes the fiber of `idle` leaves the thread.
--   - Log: captain/log.cpp, the parser of a format pattern: `init` is `LogFormatter::init`, `next_token` a
--     round of its loop. Log/Pieces: patterns that are written out from their parts.
--   - Loggers: captain/log.cpp, levels, loggers, appenders and the manager; Loggers/Setup: the listener
--     that applies the definitions of the configuration. What an appender writes to is not modelled.
--   - Http: captain/http/http.cpp and http.h, methods, statuses, maps of fields that ignore case, and the
--     two dumps. Http/Reader: a reader of lines, which is not the program's, to say what a dump holds.
--   - Sessions: captain/http/http_session.cpp, `recvRequest`. The generated parser and the socket are
--     parameters; the body is read through Streams.
--   - Addresses: captain/address.cpp, masks and networks. An IPv4 address is a number as
--     `byteswapOnLittleEndian` shows it.
--   - Servlets: captain/http/servlet.cpp, the dispatch of a request's path to a servlet. The match of
--     a pattern, `fnmatch` of the C library, is a parameter. `dispatch` is `ServletDispatch::handle` up
--     to the call of the servlet.
--   - Streams: captain/stream.cpp, `readFixSize` and `writeFixSize`. The virtual `read` and `write` are
--     a parameter, a step on a state that holds the stream and the buffer or the byte array.
--   - Fibers: captain/fiber.cpp, the states of a fiber and the operations on them. What a fiber does
--     between two switches is a `Slice`, the way it gives the thread back; a fiber that has
--     ended and is entered again fails the assertion behind its last switch. Fibers/Life: a fiber from
--     its constructor to its destructor.
--   - Scheduler: captain/scheduler.cpp and scheduler.h. `schedule` and `schedule_all` are the two
--     overloads; `work` is one step of `run`, and `Pc` the places where other threads can come between.
--     Scheduler/System: the threads of a scheduler, their steps `Step` and what they can reach.
--     Scheduler/Bag: the queue with its order forgotten, a quotient of lists.
--     Scheduler/Drain: a thread that is alone.
--   - FdManager: captain/fd_manager.cpp, the table of the contexts of file descriptors. `fstat` and the
--     flags that `fcntl` shows are parameters.
--
-- Bounds and fuel: bytes are numbers below 256; a `size_t` difference wraps (`size_sub`). Loops of
-- ByteArray run on fuel: the reads and writes on the number of bytes, since each round moves one at
-- least, `seek_loop` on the number of nodes, the varint reader on the eleven rounds its counter allows;
-- the loop of Streams on the number of bytes again, the parser of a pattern on the length of the
-- pattern, and a session on the number of bytes that come. A loop that is given too few rounds is a
-- `fail` of its own, `out_of_fuel`. A fault, such as a null pointer, a step outside a block or an assertion
-- that does not hold, is a `fail` as well.
--
-- Not modelled: floating-point numbers, destructors, locks (a method that holds its lock throughout is
-- one step), threads and system calls, and the parts that the first list names and the second does not:
-- they are input and output, or work on other modules that are not modelled.
pub mod Addresses
pub mod Base
pub mod ByteArray
pub mod FdManager
pub mod Fibers
pub mod Http
pub mod IoManager
pub mod Log
pub mod Loggers
pub mod Scheduler
pub mod Servlets
pub mod Sessions
pub mod Streams
pub mod Timer
