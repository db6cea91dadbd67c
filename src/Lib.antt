-- ===== src/Lib.antt =====
-- HexMagnet: verification of the parts of a DHT crawler and torrent indexer that can be read as
-- pure state machines.
--
-- What is modelled, and where.
--
-- - Prelude: the libraries' names, Boolean tests, lists over the native numbers, the laws of
--   `bit_xor`, and Go maps as association lists with one entry for a key (Prelude.Maps).
-- - Btree (internal/protocol/dht/ktable/btree): the binary tree behind the Kademlia routing table.
--   Btree.Bits is btree.go (identifiers as byte strings, their bits, `PutResult`); Btree.Node is
--   the nodes of node.go (`emptyNode`, `leafNode` and `branchNode` are the constructors of one
--   data type, each method one function); Btree.Root is `rootNode` and `New`. The proofs are in
--   the children: Bits.Index and Bits.Masks on bits and distances, Node.Shape for the shape of
--   trees, Node.Has, Node.Put, Node.Drop, Node.Closest and Node.Closer for one operation each, and
--   Root.Invariant, Root.Put, Root.Drop, Root.Members, Root.Closest and Root.Buckets for the root.
-- - Ktable (internal/protocol/dht/ktable): the routing table. Ktable.ReverseMap is reverse_map.go,
--   Ktable.Node is node.go, Ktable.Hash is hash.go, Ktable.Keyspace is keyspace.go (the methods of
--   the items are a record), Ktable.Table is table.go, command.go, query.go and factory.go.
--   Keyspaces hold a `RootNode` and use it through `put`, `drop` and `closest`; nodes and hashes
--   share the reverse map, which is passed from call to call as the state of their methods.
-- - Torznab (internal/torznab/categories.go): Newznab categories and content types.
-- - JobControl (internal/jobcontrol): JobControl.Batch is a run of batch.go over the rows of
--   database/queries/torrents.sql, with the states that its store is asked to save, any of which may
--   fail (Batch.Saves), JobControl.Tracker is controller.go and the tracker of
--   batch.go, with jobs that share the slot as a relation of steps (Tracker.Slot);
--   JobControl.Resume joins the two.
-- - RetryQueue (internal/retryqueue/queue.go): entries that are recorded, dispatched and given up,
--   with the statements of database/queries/torrent_retry_queue.sql on the table.
-- - Webhook (internal/webhook, internal/filter): Webhook is the configuration, the compiled filter
--   and what Publish puts into the queue; Webhook.Publisher is the queue over its channels with
--   the worker, as a relation of steps (its invariant is in Publisher.Sends); Webhook.Delivery is
--   the delivery of an envelope over a log of requests.
-- - Classifier (internal/classifier): what the compiled conditions and actions of a workflow do,
--   with the calls of workflows by one another (Classifier.Flow), and which of them end
--   (Classifier.Settled and Classifier.Returns); the values of a source and the payloads that are
--   read from them (Classifier.Payload), and the compilation of conditions, actions and workflows
--   (Classifier.Compile): that it ends, and which workflows are called (Compile.Ends, Compile.Known),
--   what a run of compiled workflows cannot do (Compile.Safe), and what rules compile to
--   (Compile.Rules); the merging of sources and the flags (Classifier.Source).
-- - Batching (internal/concurrency/batching_channel.go): a channel that hands on its elements in
--   batches, as steps of its goroutine and of those who send and receive.
-- - Metainfo (internal/protocol/metainfo/metainforequester/requester.go): the messages that are
--   read from a peer and the pieces that are put together of them, with Metainfo.Messages and
--   Metainfo.Honest for a peer that sends what it should, and Metainfo.Stream, Metainfo.Pieces
--   and Metainfo.Placing for any other.
-- - Nodes (internal/protocol/dht/nodeaddr.go, nodeinfo.go): the compact encodings of the DHT's
--   nodes.
-- - Clamp (internal/utils/clamp.go): integers made to fit a smaller type.
-- - Int160 (internal/protocol/int160.go): the order and the distance of identifiers.
-- - Calendar (internal/model/date.go): which dates are valid.
-- - MemoryQueue (internal/queue/memoryqueue): MemoryQueue.Topic is the ring of a topic with its
--   snapshot and recovery (queue.go), MemoryQueue.Queue the queue with its topics and offsets
--   (queue.go and admin.go), MemoryQueue.Consumer the replay, the attempts and the offsets of a
--   consumer (consumer.go). JSON, gzip, the database, handlers and contexts are parameters.
--
-- Conventions. A Go expression that may panic (an index or slice out of range, a nil dereference,
-- an explicit `panic`) is an `Option`, with `none` for the panic; where a result has other cases
-- too, the panic is its constructor `panics`. Identifiers are lists of bytes; the width is a
-- parameter of the tree, and twenty in the routing table. Times are numbers of nanoseconds and
-- enter as arguments, as does the order in which Go iterates over a map: a function that lists the
-- entries, of which is assumed only that each entry is visited once; in the classifier it is the
-- order of the list that stands for the map. Locks make each operation of the table and of the
-- queue one step, so that a history is a list of operations. That is coarser than the code for
-- `persist`, which marshals the offsets after it has given up the lock, and `recover`, which takes
-- none.
--
-- Fuel. `put` on a node recurs on fuel, since a leaf that splits is put again one level down. The
-- root gives it sixteen for each byte of the identifier and two (`put_fuel`), which is enough: two
-- steps for each bit (Node.Put.put-Done). `process` tries a message on fuel, for which the number
-- of attempts allowed is enough (Consumer.Process.process_settles). The loop over the pages of a
-- batch job has one round for each row and one more, which is enough since each page takes a row.
-- Decoding nodes has one round for each byte, and `strings.TrimRight` too. A workflow that is
-- called by another takes one of the fuel (Classifier.Returns.run-IsSettled). Compilation takes
-- one of the fuel for each value within another (Classifier.Compile.Known). Reading from a peer
-- has a round for each byte that it sends and one (Metainfo.Pieces.read_all_pieces-HasEnded). No
-- other model has fuel but `cmp`, the comparison of bit strings, which has no theorem here.
--
-- Not modelled: networking, the database, search and Elasticsearch, GraphQL, HTTP, TMDB, the
-- classifier's parsers and language model, configuration, logging, and code generated by tools,
-- which are input and output or calls of other programs; and of the modelled packages the
-- goroutines, the timers, the floating-point fields of the delivery policy, and what turns values
-- into text.
pub mod Prelude
pub mod Batching
pub mod Btree
pub mod Ktable
pub mod Calendar
pub mod Torznab
pub mod MemoryQueue
pub mod Clamp
pub mod Int160
pub mod JobControl
pub mod RetryQueue
pub mod Webhook
pub mod Nodes
pub mod Classifier
pub mod Metainfo
