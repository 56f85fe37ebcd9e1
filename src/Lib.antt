-- ===== src/Lib.antt =====
-- DFS-Go, a peer-to-peer file system: the parts under Cluster/ that decide where a key lives, who
-- is a member, which peer is down, which version of a key counts and how replicas are brought back
-- in step; the registry of transfers; the chunks of files and the swarm store; and the daemon's wire format.
--
-- The parts and the files that model them:
--   VClock       Cluster/vclock/vclock.go: clocks and their causal order. VClock/Order has Compare,
--                VClock/Laws has Merge and Increment.
--   Conflict     Cluster/conflict/conflict.go: LWWResolver.Resolve over clocks and timestamps.
--   HashRing     Cluster/hashring/hashring.go: AddNode, RemoveNode, GetNodes and the rest. Its
--                children hold the binary search, the walk, and the agreement of the three tables.
--   Membership   Cluster/membership/membership.go: the table of members, with UpdateState, Merge,
--                ForceLocalState and BumpSelfGeneration.
--   Merkle       Cluster/merkle/merkle.go: Build, Diff, repair and the anti-entropy exchange.
--   Handoff      Cluster/handoff/handoff.go: the hint store, its files and deliverPending.
--   Quorum       Cluster/quorum/quorum.go: Write and Read over the replies that arrive.
--   Rebalance    Cluster/rebalance/rebalance.go: migrateToNewNode and rereplicate on a ring.
--   Transfer     Server/transfer/transfer.go: the registry of transfers, with Pause, Resume, Cancel.
--   Gossip       Cluster/gossip/gossip.go: a round, HandleDigest and HandleResponse on a table.
--   Failure      Cluster/failure/detector.go: the windows of heartbeat intervals (Failure/Window) and
--                the reaper that suspects peers and declares them dead (Failure/Story).
--   Swarm        Storage/swarm/swarm.go: bitfields of chunks. Swarm/Cache is Storage/swarm/cache.go
--                with the buckets of State/state.go that it uses.
--   Chunker      Storage/chunker/chunker.go: cutting a file into chunks, Reassemble (Chunker/RoundTrip)
--                and the root of a manifest (Chunker/Root).
--   Resume       Storage/resume/resume.go: the log by which a download goes on where it stopped.
--   Pending      Storage/pending/pending.go: the same for an upload, with the file name of a key.
--   Ipc          ipc/wire.go: the writers and readers of messages on a connection.
--   Common       lists, Go maps, sorting, strings and tests; Tests has runs and concrete inputs.
--
-- Gossip merges and updates the table of Membership. The quorum resolves with Conflict, which
-- compares by VClock; the rebalancer asks HashRing who is responsible for a key. A method takes
-- the state of its object and returns the new one; the mutex of each object makes a method one
-- step. A Go map is an association list, and a theorem over all such lists holds of every
-- iteration order. A uint64 wraps at 2^64, and so do the int64 sizes of the hint store and of the
-- cache, held as residues. `time.Now()` is the argument `now`, in nanoseconds. SHA-256, JSON, the
-- file system, package strings, the normal distribution in floating point and the closures that
-- the server hands in are parameters. A connection is the bytes that wait to be read and those
-- written. The bucket of a database is a map; the database may be closed, refuse a write or hold
-- entries that do not parse. The states of members are the four that have names. A panic is a
-- missing result.
-- `sort.Search` runs on one unit of fuel more than the ring has positions and `buildLevel` on one
-- for each leaf. That is enough: each round of the search leaves a shorter interval, and each layer
-- of the tree but the last has more nodes than the next. `popcount` runs on nine units, since each
-- round clears one of eight bits; the chunker's loops on one for each byte and each hash, and one
-- more to see the end.
--
-- Not modelled: timers and tickers, goroutines beyond the order in which their results arrive,
-- logging, encoding/gob, and the parts outside those files (storage,
-- the downloader, the server, cryptography, transport and the user interface).
pub mod Common
pub mod VClock
pub mod Conflict
pub mod HashRing
pub mod Membership
pub mod Gossip
pub mod Merkle
pub mod Handoff
pub mod Quorum
pub mod Rebalance
pub mod Transfer
pub mod Ipc
pub mod Failure
pub mod Swarm
pub mod Chunker
pub mod Resume
pub mod Pending
mod Tests
