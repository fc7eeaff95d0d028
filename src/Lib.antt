-- ===== src/Lib.antt =====
-- A verification library for fjdispatchlite, a C++ library of a task dispatcher and of messages in
-- memory that processes share.
--
-- The parts of the program, and the modules that model them:
--
-- * fjdispatchlite/fjfixvector.h, `FJFixVector<T>`, a vector in a buffer of fixed size: FixVector.
--   View sees each method on the list of elements, Splice treats `splice`, and Client runs
--   sequences of calls against a bounded list. The buffer is the list of its slots, with what they
--   hold beyond the count. `std::sort` is an interface, Prelude/Sort: any ordered permutation.
-- * fjdispatchlite/fjfixmap.h, `FJFixMap<T>`, a map in a sorted array: FixMap. Search is the binary
--   search, Shift, Insert and Unset are the loops that move entries, Laws sees the map on its keys.
-- * fjdispatchlite/fjtypes.cpp, the clock: Time. The reading of the clock is an argument.
-- * fjdispatchlite/fjdispatchlite.h, `FJDispatchLite`: Results has `getHandle` and the table of
--   results (`_new_resultitem`, `_post_resultitem`, `waitResult`), with Evicting and Retention
--   about how long a result stays, and Results/System about all threads that post, run tasks and
--   wait (Ordered, Answers), Dispatch the instances, their task queues and the worker threads
--   (`postQueue`, `postEvent`, `enqueueTask`, `workerThread`, `_adjust_workers`, `_shrink_workers`,
--   `monitorFunc`). A function of the model is one section under the mutex; the clock, new thread
--   ids and the methods' values are arguments. Dispatch/System lets the sections of all threads
--   come in any order, Scheduling reads off it how one instance fares, Moves, Taking and Sections
--   show each section to be a move of each instance, and Invariants, Exclusion and Order follow the
--   moves. Answering follows a message from its post to its result. Remaining counts what is left
--   to do, and Work follows it to the end. Workers and Staff are about the pool of threads.
-- * fjdispatchlite/fjunitframes.h, the macros by which an object sends to itself: UnitFrames, with
--   Sends about what they are to the dispatcher with its threads.
-- * fjdispatchlite/fjtimerlite.h, `FJTimerLite`: Timer has the table of timers and the sections of
--   `timerThread` on one timer, Waits how long it waits, Firing when a timer fires. Timer/Loop is
--   the loop of `timerThread` with its iterator, an index into the entries in any order, and
--   Standing, Turns and Rounds follow a timer over the rounds while the table is not changed from
--   outside; an insertion while the thread stands at an entry can make the code's iterator invalid,
--   and is left out there. Timer/System has the sections of all threads in any order; Tables and
--   Spacing are about the times at which the thread finds a timer due, which lie before its calls.
-- * fjdispatchlite/fjsyncguard.h, `FJMutex` and `FJSyncGuard`, with `_lock` and `_unlock` of
--   fjsharedmem.h: SyncGuard; Scopes is about guards that are built and destroyed. A mutex is the
--   thread that holds it, with what POSIX says of `pthread_mutex_lock`, `_trylock` and `_unlock`.
-- * fjdispatchlite/fjsharedmem.h, `FJSharedMem`: SharedMem has the region that the processes share,
--   Listen `addListen`, Notify `_notify` and the payload slots, Worker the sections of
--   `workerThread` and of the destructor, Process the process table. It uses the vector and the map
--   as the code does, over the region's arrays and counts. Region says what the region satisfies
--   between two sections. Below Notify, Slots, Pending and Collection are about the payload slots,
--   Search and Scan about the search for the listeners, Pushing and Queueing about the queue,
--   Payloads about what a message carries; below Worker, Drain and Cleanup are about what is taken
--   out of the queue and the table, Calls about the calls of the objects; below Process, Table,
--   Changes, Lifecycle, Users, Returning and Moving are about the process table, Objects, Ending
--   and Lifespan about the constructor, the end of a worker and the destructor. Opening is what the
--   constructor does before its section, and the loops that wait: Segments has two processes that
--   open it at the same time, Spins the loops. SharedMem/System lets the sections of all processes,
--   workers and objects come in any order; Tracking, with Notifying, counts the messages on their
--   way and their slots; below System, Soundness, Sections, Calls and Reached carry the invariant
--   through the steps, Payloads is about what a call is given, and Lost about the payload of a
--   message that is never delivered.
--
-- Numbers are natural numbers; `size_t` and `uint32_t` arithmetic that can wrap is written with its
-- wrap-around (`add64`, `sub64` of Prelude). Signed times are taken not negative, and differences
-- of them are compared by adding to the other side.
--
-- Loops that are not over a list run on fuel: the binary searches on the number of elements, since
-- each round makes the range smaller; the loops over arrays on the rounds that their bounds leave;
-- the removal of empty atoms on the number of elements. The theorems show that this is enough.
-- `waitResult` runs over the looks that it takes at the table, a list of any length.
--
-- In the steps of the dispatcher, every order of the sections is allowed that the mutex allows, and
-- more: a thread may take a task while it has one. The system also lists all posts, and all tasks
-- that were taken, which the code does not keep. `_shrink_workers` is not a step, since nothing
-- calls it.
--
-- In the steps of the shared memory, a worker's calls may come in any order and between any two
-- sections, and any process may call any function with any arguments: more than the code does. The
-- system also lists the messages that were queued, delivered, and taken out without a call. A
-- region is taken to stay after its last object is gone, as it does in a process that still has it
-- mapped.
--
-- What `shm_open` finds is an argument, for each of its two calls its own. Of the setup of the
-- shared mutex the model has nothing; a move of `std::memmove` beyond the buffer is seen in the
-- buffer only.
--
-- Not modelled: the calls of `mmap`, `munmap` and `shm_unlink`, the private segment of an object,
-- which the library does not read, the sleep of a thread on a condition variable, the debug and
-- profiling output, and the programs under fjdispatchlite/test. A mutex is taken to exclude, so
-- that sections do not overlap; SyncGuard is where the mutex itself is modelled.
pub mod Dispatch
pub mod FixMap
pub mod FixVector
pub mod Prelude
pub mod Results
pub mod SharedMem
pub mod SyncGuard
pub mod Time
pub mod Timer
pub mod UnitFrames
