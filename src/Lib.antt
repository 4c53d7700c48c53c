-- ===== src/Lib.antt =====
-- The course software of MIT 6.5840: the Go packages that the labs are built on and tested with.
-- The labs' own bodies (raft1/raft.go, kvsrv1, kvraft1/server.go, rsm/rsm.go, shardkv1's servers and
-- controller) are skeletons to be filled in, so the program's logic is in its framework:
--   - shardkv1/shardcfg/shardcfg.go, which assigns shards to replica groups;
--   - labrpc/labrpc.go, the simulated network over which every lab runs;
--   - raft1/test.go and raft1/server.go, which check what the Raft peers apply;
--   - main/mrsequential.go, MapReduce in one process;
--   - kvtest1, models1 and tester1, with which the tests of the key/value labs are written.
-- (Paths are from the root of the Go module, which is src/ in the repository.)
--
-- Base: equality, lists, maps, signed integers, and `Exec`, the outcome of code that returns, ends
--   the process (log.Fatalf, t.Fatal), panics, or does not end on its fuel. A map is an association
--   list; a function that ranges over a map takes its order, and the theorems hold for each order.
-- ShardCfg: `ShardConfig` and its methods, each with the new record as its result. `level` is the
--   loop of Rebalance on fuel 145: a move takes the sum of the squared loads down, and twelve
--   shards start at 144 or less. Proofs: Counts, Analyze, Level, Assign, Rebalance, Check, Keys, and
--   Membership for Join and Leave.
-- Labrpc: `Network` and the methods under its lock; Service has the servers and their dispatch,
--   Process has processReq and ClientEnd.Call. An `Env` holds what runs beside a request: the
--   outcomes of `rand`, what the waiting loop receives, and the network as each look finds it.
--   Proofs: Serving, Delivery, Links, Dispatch, Call.
-- RaftTest: the servers' copies of the committed logs, the two appliers, and the checks of a test.
--   Waiting and One have wait and one, over the states that their polls find. Proofs: Agreement,
--   Holes, Committed, Leaders, OneLeader, Snapshots.
-- Models: the sequential model of one key, with which the checker is run. Proofs: Versions,
--   Partition.
-- KvTest: the put loops of the key/value tests and the checks at their end, over any clerk. The
--   loops are on fuel; for a server that keeps the promises of `Puts.Serves` the fuel that is enough
--   is in the theorems. Appending has the clients that append. Proofs: Puts, Clients, Concurrent,
--   Entries and Appends.
-- Annotation: the notes on a test run and the framework's view of connected and crashed servers.
--   Framework has the second and its calls. Proofs: Sorting, Faults, Notes.
-- Groups: the servers of a group and the ends between them, over the network of Labrpc. Servers has
--   their starting and stopping, with their Persisters. Proofs: Ends, Connects, Disconnects, Rounds,
--   Partitions, Halves and Minority for MakePartition, Restart, Makes, Launches, Starts, Stops, Shutdowns, Sizes, Names for ServerName.
-- Clnts: the clerks of a test and their ends, over the same network. Proofs: Ends, Views (the table
--   that the operations refine), Added, Refinement, Reach, and Table, Cleanup and NoLeak for the
--   clean up.
-- Config: what one test keeps, with the table of the groups: the groups come and go, and the test
--   begins, ends and cleans up. Proofs: Handles, Counters, Starts and Exits (over
--   Starts and Shutdowns of Groups).
-- Shardkv: the joins and leaves of the tests of shardkv1/test.go, over ShardCfg. The controller is an
--   argument, with laws for its Query. Proofs: Loads, Steps (a configuration and its groups), Join,
--   Leave, Crowded, Tester (the groups that run), Rounds.
-- Mapreduce: main/mrsequential.go over any application, and the word count and the index of mrapps.
--   The number of entries is enough fuel. Proofs: Reduced (the loop over the keys), Words.
-- Persister: what a server has saved, over a heap of byte arrays. Proofs: Isolation.
-- Labgob: the checks that labgob/labgob.go makes around encoding/gob, over a table of types, in which
--   a type may refer to itself. The number of types is enough fuel. Proofs: Parts, Checking, Defaults,
--   Counting.
--
-- Not modelled: timing, locks (an operation under a lock is one step), log texts, JSON, encoding/gob
-- and the linearizability checker porcupine, which are other packages.
pub mod Base
pub mod ShardCfg
pub mod Labrpc
pub mod RaftTest
pub mod Models
pub mod KvTest
pub mod Annotation
pub mod Groups
pub mod Clnts
pub mod Config
pub mod Shardkv
pub mod Mapreduce
pub mod Persister
pub mod Labgob
