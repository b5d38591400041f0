-- ===== src/Lib.antt =====
-- Verification library of stellmap, a registry of service instances that is replicated by Raft.
--
-- A client registers an instance over HTTP. The request is normalized and checked, becomes a value,
-- and a Raft entry puts it under a key built from namespace, service and instance id. The state
-- machine of every member applies the entry; a watch hub then passes the change on to the clients
-- that watch a service. Queries scan the keys below a prefix and drop instances whose lease has
-- ended. A background task scans the keys in pages and deletes what has expired.
--
-- Which file is about which part, with paths from the root of the repository:
--
--   Base, GoMap    numbers, Boolean tests, lists and results; Go's map as a list of its entries, in
--                  the order in which `range` visits them
--   Text           Go strings as lists of bytes, with the functions of package strings that the code
--                  calls; TrimSpace is exact on every byte string
--   Registry/Types          the data of internal/registry/model.go and selector.go
--   Registry/StringMap      CloneStringMap
--   Registry/ServiceName    ComposeServiceName, ParseServiceName, NormalizeStructuredServiceIdentity
--                           and the helpers on the five levels of a name
--   Registry/Selector       internal/registry/selector.go; strings.ToLower is a parameter
--   Registry/Query          ParseQuery and MatchQuery, on the values of a URL
--   Registry/Register       NormalizeRegisterInput, NewValue, CloneEndpoints, FilterEndpoints
--   Registry/Lease          EffectiveLeaseTTLSeconds and IsAlive, with the wrap-around of int64
--   Registry/Keys           Key, ParseKey, the prefixes, and the keys of
--                           internal/registry/replication.go
--   Registry/Replication    the values of internal/registry/replication.go and ParseReplicatedKey
--   Registry/Watch          internal/registry/watch.go: NewWatchHub, SubscribeSince, its unsubscribe
--                           function, Publish; the parts of Publish inside and outside the lock are
--                           functions of their own
--   Registry/Cleanup        internal/registry/cleanup.go
--   Storage                 Operation, Command and KV of internal/storage/state_machine.go
--   Storage/Order           the order of Go strings
--   Storage/Memory          MemoryStateMachine: Apply, Get, Scan
--   Storage/Uint64, Digits  numbers as bytes, big-endian and to base ten
--   Storage/Pebble          PebbleStore (internal/storage/pebble.go), all methods; Pebble and JSON are
--                           the interfaces of Storage/Pebble/Engine, with the laws that their
--                           documentation gives
--   Raftnode/Config, Ready  internal/raftnode/config.go, ready.go, confchange.go, and the conversions
--   Raftnode/Waiters        the readers that wait in ReadIndex, as numbered channels
--   Raftnode/Node           applyCommittedEntries and updateStatus; Loop has handleReady and
--                           maybeTriggerSnapshot, Recover has bootstrapStorage and InstallSnapshot. The
--                           operations of etcd's Raft, of the log and of the snapshot files are the
--                           record Parts, which says nothing about what they do
--   App/Cleanup, Events     CleanupExpiredRegistry and publishRegistryEvents (internal/app/app.go)
--   App/Members             restorePersistedMemberAddresses, where the store lists its members
--   App/Stream              the reader of a replication stream (internal/app/replication.go), from the
--                           bytes of the body on, with the lines and the limit of bufio.Scanner
--   Transport/Sse           the writer of an event stream (internal/transport/http/handlers_impl.go)
--   Transport/Instances     the local answer of QueryInstances, from the scanned items on
--   Transport/Events        the events of a watch, QueryInstances with the replicated instances, and
--                           the snapshot of a watch, where no scan fails
--   Transport/Writing       Register, Deregister and Heartbeat, from the decoded request to the reply
--                           and to the command whose proposal did not fail
--   Wal                     internal/wal/memory.go, and mergeEntries of internal/wal/wal.go
--   Wal/File                FileWAL (internal/wal/wal.go, segment.go, codec.go). A Directory is the file
--                           of the hard state and the segment files by number. File has the files and
--                           readSegment, Writer the incremental append and rewriteTail, Methods the
--                           methods. Mirror says how the log in memory and its directory agree; the
--                           other modules keep this through each operation
--   Replication/Tracker     internal/replication/tracker.go
--   Runtime/AddressBook     internal/runtime/address_book.go
--   Tests                   runs at concrete inputs
--
-- Go's int64 and int32 fields are integers; uint64 counters wrap by `% 2 ^ 64`. A Go panic is `none`.
-- Loops are structural recursion on the list they walk. Only two take fuel: the binary search of
-- sort.Search the length of what it searches, and readSegment one more than the length of the file.
-- Wal/Search and Wal/File/Records show that this is enough.
--
-- Not modelled: JSON, and so the snapshots of the memory machine; the network; a disk that fails; etcd's
-- Raft; the texts of errors; logs, metrics, flags and generated code. The calls of
-- etcd's Raft return: the panics of its MemoryStorage are left out. A Pebble operation that fails
-- leaves the store as it was. Of a restart that fails only the error is kept. Of the file log,
-- rewriteAllSegments is left out, which nothing calls. Also left out so far are the snapshot stores,
-- the start and stop of the node, and the HTTP handlers of discovery, health and control.
pub mod App
pub mod Base
pub mod Text
pub mod GoMap
pub mod Registry
pub mod Raftnode
pub mod Replication
pub mod Runtime
pub mod Storage
pub mod Transport
pub mod Wal
pub mod Tests
