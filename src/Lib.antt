-- ===== src/Lib.antt =====
-- A verification library for mars_wrapper, a C++ wrapper around the messaging library mars: a program
-- sends messages and registers listeners (src/mars_plus.cpp), and the mars library calls back for
-- the bytes of a request, with the bytes of a response or a push, and at the end of a task
-- (src/proxy/stn_callback.cpp), and to frame and recognise packets (src/proxy/longlink_packer.cpp).
-- The parts share a map from task numbers to contexts (src/proxy/mars_task_proxy.cpp), and each
-- context owns a message (src/im_message.cpp).
--
-- The parts and their files:
-- - Memory: the globals, the heap and the log of the calls made, as one state (`World`), and the
--   accesses of C++. A computation is a function from a state to an option of a result and a state;
--   `none` is a fault: a null or dangling pointer, a read or write outside a block, a second `free`, a
--   misused mutex. Memory/Range has reads and writes inside a block, Memory/Access their lemmas.
--   Addresses are never used again, and a fresh block has indeterminate bytes, a parameter of the model.
-- - Host: the byte order, the width of size_t, `malloc` and `htonl`, as an interface. The theorems hold
--   on each platform that meets it. Platform has a 64-bit one that stores the low byte first.
-- - Buffer: AutoBuffer of mars (libs/mars/include/mars/comm/autobuffer.h, whose implementation is not
--   in the repository), as an interface with the laws that the program relies on. Platform has one.
-- - Message: src/im_message.cpp. An ImMessage is its pointer `m_message`; `create` and
--   `default_message` are its constructors, `destroy` its destructor. Message/Frame and Message/Header
--   have the layout of the header, Message/Create and Message/Parse the theorems. Message/Counter has the
--   counter of the numbers in several threads, Message/Class the class as an interface, and
--   Message/Transfer a message from one object to another.
-- - Proxy: src/proxy/mars_task_proxy.cpp, with the mutex of src/base.h as it is used there.
--   Proxy/Owned has the well-formedness of the memory, `Inv`: each context owns an ImMessage, the
--   block of its message, which carries the task's own number, and the TaskContext, three addresses in a
--   row; and `pending`, the request that waits under a number. Proxy/Threads has the accesses of several
--   threads to the map, interleaved step by step, and that they come to an end. Proxy/Class has the class
--   as an interface with laws.
-- - Callback: src/proxy/stn_callback.cpp, with one file of theorems per callback.
--   Callback/Freed has what the end of a task gives back of the memory, Callback/Overtaken two threads at
--   one task, Callback/Answers what the answers mean, Callback/ErrorCode what a listener learns of an error.
-- - Task: the task of the mars library that `sendMessage` fills in.
-- - Longlink: src/proxy/longlink_packer.cpp. `Out` has the variables that it gets by reference.
--   Longlink/Stream has a decoder to compare it with.
-- - Plus: include/mars_plus.h and src/mars_plus.cpp. Plus/Pending has a request under a free number
--   and Plus/Replaced one under a number that is in use.
-- - Mutex: the class Mutex of src/base.h for pthreads, on an interface of the pthread calls whose laws
--   are those of an error-checking mutex. `acquire` and `release` are its `lock` and `unlock`; the
--   proxy uses a flag in its place, which Mutex/Exclusion relates to the class. Mutex/Timeout has
--   the deadline of `timedlock`. Its variant for Windows is std::mutex.
-- - Echo: the server of the demo, demo/TcpEchoServer/TcpEchoServer.cpp: its handlers and the dispatch
--   of the events that epoll gives. What the kernel answers is an argument; the calls of `send` and
--   `epoll_ctl` go to a list. Echo/Cycle has what is sent back to one
--   client, Echo/Client one client among others, Echo/Clients many at once, Echo/End how a connection ends.
-- - Singleton: `Instance` and `Release` of the classes that have one object, and Singleton/Race two threads
--   in `Instance`, step by step. App:
--   src/proxy/app_callback.cpp. Shortlink: src/proxy/shortlink_packer.cpp, on an interface of the HTTP
--   builder (libs/mars/include/mars/comm/http.h declares it) whose laws say what it was
--   told; its fields are a map by their names.
-- - Echo/Server: how the server of the demo starts. Client: demo/TcpEchoServer/TcpClient.cpp. Demo:
--   demo/demo.cpp, whose request is followed through the whole wrapper.
-- - Windows: what src/base.h puts in place of pthread and gettimeofday on Windows.
-- - Xlog: the enumerations of the log that `init` sets.
-- - Mars: the calls that the mars library offers, the enumerations that it reads answers by
--   (Mars/Answers), and its error codes (Mars/Errors).
-- - Session: sequences of the calls of the program and of the mars library, and a model of what the
--   wrapper promises, in which there is no memory. Session/Leaks follows who owns each allocation,
--   Session/Drain what is left when every task has ended, Session/Traffic what the library is asked for.
--   Session/Threads has `sendMessage` in several threads, step by step, and a plan of it, in stages, that
--   it is held against.
-- - Examples: the theorems at concrete inputs.
--
-- Numbers: a uint32_t is a natural number with its wrap-around written out, a size_t is one modulo
-- `size_mod` (2 ^ 32 or 2 ^ 64), an int is an integer, with the conversions between them. The error
-- type of a task is a value of an enumeration without negative values. Loops are recursions on lists;
-- there is no fuel.
--
-- Not in the model: the log lines, except where they read memory; that an allocation fails; what the
-- listeners do (they are names, and their calls go to the log), but for those of the demo; and the
-- headers of mars under libs/, a copy of another project's: they are the boundary of the model, which has
-- the calls that they offer, and the constants, enumerations and types that stand at it, but none of
-- what the library does. Except in Proxy/Threads, Session/Threads,
-- Callback/Overtaken, Message/Counter and Singleton/Race the calls are taken one after another.
pub mod Prelude
pub mod Host
pub mod Memory
pub mod Message
pub mod Buffer
pub mod Proxy
pub mod Callback
pub mod Longlink
pub mod Plus
pub mod Session
pub mod Platform
pub mod Examples
pub mod App
pub mod Client
pub mod Demo
pub mod Echo
pub mod Mars
pub mod Mutex
pub mod Shortlink
pub mod Singleton
pub mod Task
pub mod Windows
pub mod Xlog
