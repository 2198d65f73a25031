-- ===== src/Lib.antt =====
-- Synchronisation over one-sided RDMA: the locks with which compute nodes share tuples that lie in the
-- memory of a storage node, the latches of the backend, and the queues between its threads.
--
-- The parts and where they are modelled:
-- - Container, BatchQueue: backend/nam/utils/BatchQueue.hpp. `RingBuffer` and `Stack` are Container/Ring
--   and Container/Stack, with the record of Container/Interface as what `Batch` asks of its template
--   argument. Fields and functions have the names of the source, here and below in snake case
--   (`latchShared` is `latch_shared`). Batches are an array and a pointer to one is an index, `none` for
--   nullptr. The waits for the spin lock return `none` while another thread holds it.
-- - Latch: backend/nam/syncprimitives/HybridLatch.hpp. Latch/Optimistic has the functions of
--   `OptimisticLatch` on its word, Latch/System threads that interleave their atomic accesses to it.
--   Latch/Hybrid has `HybridLatch`, with std::shared_mutex as a writer flag and a count of readers;
--   what other threads do between two accesses is an argument.
-- - Rdma: backend/nam/rdma/CommunicationManager.hpp. Rdma/Request has the work requests that the post
--   functions fill in, Rdma/Memory memory as 64-bit words at byte addresses, Rdma/Client a thread that
--   posts requests and polls for completions. The network card is not code of the repository: it is
--   the record `Nic` with the promises of the verbs in `IsVerbs`. A read may see words of different
--   moments (`view`). Before each request the other clients change the remote memory by `others`.
-- - Lock: frontend/OptimisticLocks.hpp, and the functions of frontend/locking_benchmark.cpp. Lock/Farm and
--   Lock/Crc are the consistency proofs, Lock/Exclusive and Lock/Optimistic the two locks for every
--   pair of template arguments, Lock/ReaderWriter the lock with a count of readers in one word;
--   Lock/ReaderWriter/System has many clients at one such lock, and Lock/ReaderWriter/Tuple what
--   the benchmark writes to a tuple and verifies. Lock/Optimistic/Writers has the steps of the writers
--   of one tuple as the memory shows them, with the words of one write in the order of their addresses;
--   Lock/Exclusive/Steps runs a holder of the exclusive lock, and Lock/Optimistic/Snapshot a reader.
--   Lock/Optimistic/Header and Lock/Exclusive/HeaderSteps are the same for a lock in the header. The two
--   theorems on readers rely on how one read of 16 bytes sees the version and the lock word, of which
--   the verbs promise nothing: the theorems name it as a condition. Lock/Exclusive/FarmUpdate is what
--   `unlock` publishes under `FaRM`.
-- - Lock/Tail: frontend/locking_benchmark_tail.cpp, where a writer sets the lowest bit of the last word
--   of a tuple, a reader adds 2, and the write back of the tuple frees the lock. Lock/Tail/System has
--   many clients at one such word.
-- - Rdma/Barrier: the barrier of frontend/BenchmarkHelper.hpp. Allocator: `MonotonicBufferResource` of
--   backend/nam/utils/MemoryManagement.hpp. Lock/ReaderWriter/Rounds: one round of a worker's loops.
-- - Lock/Single: the thread of frontend/lock.cpp. Lock/ReaderWriter/Traversal: the descent of
--   frontend/btree.cpp.
-- - WorkerPool: backend/nam/threads/WorkerPool.cpp, the turns of a thread and of its callers under its mutex.
-- - BatchQueue/Histories: sequences of calls, with the batches that the threads have in hand.
-- - Connection: the connection manager `CM` of backend/nam/rdma/CommunicationManager.hpp.
--   Connection/Exchange polls for the two completions of an exchange, Connection/Handler is the thread
--   that handles incoming events, one function per case, and Connection/Outgoing has
--   `initiateConnection`. librdmacm is not code of the repository: which calls succeed, which events
--   come and what the other end sends are arguments (`Arrival`, `Attempt`), and the completion queue is
--   the record `CompletionQueue` with the promise `IsVerbs`. Connection/Phases says which events may
--   follow one another for one connection. Connection/Teardown has the calls of the destructor, and
--   Connection/Teardown/Discipline what the verbs ask of such calls: an object is given back once, and
--   after all that use it, the thread that waits for events of a channel among them.
--   Connection/Endings is when the handler returns.
-- - Worker: the constructor of backend/nam/threads/Worker.cpp, on the functions of Connection.
-- - Storage: backend/nam/Storage.hpp, the catalog of memory regions and the messages to new connections.
--   The code of backend/nam/NAM.hpp is the same but for one loop.
-- - Concurrency: `Barrier` of backend/nam/threads/Concurrency.hpp, where each turn of a thread is one
--   atomic access. CoreManager: backend/nam/threads/CoreManager.hpp. Parallelize:
--   backend/nam/utils/Parallelize.hpp.
-- - Random: backend/nam/utils/RandomGenerator.cpp, FNVHash.cpp and ScrambledZipfGenerator.cpp. Accesses out
--   of an array give `none`.
-- - Benchmark: the functions `run_test`, `run_pessimistic` and `run_check` of
--   frontend/optmistic_benchmark.cpp on the locks of Lock. The numbers drawn are arguments.
--   Benchmark/Traversal is the descent of frontend/opt_btree.cpp,
--   Benchmark/Pacing the signals and polls of the writer of frontend/broken_remote_write.cpp.
-- - Common has shared names, tests on numbers, 64-bit words and lists. Tests has concrete runs.
--
-- Numbers: 64-bit sums keep their wrap-around (`add_u64`, `sub_u64`). Fuel: `reset` takes a bound on its
-- rounds, and one more than there are full batches is enough; the loops over a tuple have as many
-- rounds as the tuple has words; the poll loops run over the list of what the polls will return and
-- end with `waits` where it has no completion left; the RDMA barrier takes a bound on its reads. An
-- exchange of messages needs three rounds of its loop at most. `assert_no_duplicates` walks a list for
-- as many steps as there are batches, which suffices for distinct ones. `repeat` of Benchmark takes a
-- bound on the attempts; a bound above the number of restarts is enough. The retries of
-- `initiateConnection` run over the list of attempts.
--
-- Not modelled: the set-up of the connection manager; `WorkerGroup`, and the threads
-- of the worker pool themselves; the main functions and the other benchmark programs; the Zipf
-- distributions, which are floating point; profiling; crc64, a parameter; the number of batches that the
-- constructor of `BatchQueue` computes with a double, an argument here; the memory order of atomic
-- accesses, which are sequentially consistent here.
pub mod Allocator
pub mod BatchQueue
pub mod Benchmark
pub mod Common
pub mod Concurrency
pub mod Connection
pub mod Container
pub mod CoreManager
pub mod Latch
pub mod Lock
pub mod Parallelize
pub mod Random
pub mod Rdma
pub mod Storage
pub mod Tests
pub mod Worker
pub mod WorkerPool
