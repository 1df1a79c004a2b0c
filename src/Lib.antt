-- ===== src/Lib.antt =====
-- A model of the runtime of the activerecord library and of part of its generator, with the
-- theorems that it is held to.
--
-- The runtime packs requests to the octopus database (pkg/octopus) out of integers and byte
-- strings (pkg/iproto/iproto/pack.go), sends them as packets (stream.go, reader.go, writer.go)
-- and keeps the calls that wait for an answer (pending.go). Where to send them is decided by
-- pkg/activerecord: a configuration (config.go) gives a cluster of shards (cluster.go), which a
-- cacher keeps, and a connection is kept for each instance (connection.go); Box of
-- pkg/octopus/box.go joins these. The generator reads declarations of a model, as Go syntax
-- trees, (internal/pkg/parser) into a package (internal/pkg/ds) that is checked
-- (internal/pkg/checker) before code is generated from it.
--
-- Go models what is used of Go: results that succeed, fail or panic, byte slices that are read
-- through a reader (Go/Reader), strings as keys (Go/Strings). Go/Reader/Decodes says that a
-- reading function takes given bytes and returns a value, whatever follows. Iproto models pkg/iproto/iproto: Pack is pack.go, Packet is stream.go,
-- reader.go and writer.go, Store is pending.go, Channel the steps of channel.go with its writer
-- in Channel/Writer, Peers is cluster.go with the merge of peers in Peers/Merge. Octopus models
-- pkg/octopus: Wire is pack.go, Request and Response are box.go with UnpackSelect of testutil.go,
-- Connecting is Box, Mock is mock_server.go and testutil.go, Options is options.go. Cluster
-- models pkg/activerecord: Shard, Topology, Loading and Cacher are cluster.go, Connections is
-- connection.go, Settings is config.go. Package models internal/pkg/ds: Package itself the
-- imports, Package/Records the records of app.go and the other methods of package.go,
-- Package/Procedures the output parameters of app.go. Parser models internal/pkg/parser: Tags is
-- utils.go, Fields field.go, Indexes index.go, Links flag.go, fieldobject.go, trigger.go and
-- import.go, Serializers serializer.go, Doc the description of the server in parser.go. Checker
-- models internal/pkg/checker. App is internal/app/argen.go. Sync models pkg/iproto/syncutil:
-- Tasks is taskgroup.go, Runner is taskrunner.go, Multitask is multitask.go, Throttle is throttle.go. Workers models
-- pkg/iproto/util/pool. Text models pkg/iproto/util/text. Functions keep the words of the source (PackUint32 is
-- pack_uint32); a method that has the name of another takes its type's before it
-- (cluster_next_master). Tests has runs of the definitions.
--
-- Machine integers are natural numbers with the wrap-around written out. A method that holds a
-- lock is one step. Fuel stands in the loop of store.push, which has one round more than there
-- are calls pending: that many sync ids in a row cannot all be taken. itoa in Cluster/Loading has
-- one round more than its number, which no number of digits exceeds. The merge of peers has one
-- round for each pool. The clock, random numbers, what the connector and the creator of options
-- return, the file system and the generator of App, the checksum of a cluster, the hash of a
-- connection, the destination of packets, the lower case of a name, what a Goer starts, what
-- os.Remove does and in which order Run takes the names that it removes, and what a trigger of a
-- fixture does are arguments.
--
-- Not modelled: the functions of pack.go that go through reflection, the sockets of pkg/iproto,
-- the pools of channels and their watchers, logging, the texts of errors, the parts of the parser
-- that read other source directories (mutator.go and partialstruct.go) and the dispatch over
-- whole files, the stores of fixtures and the templates of the generator. Calls of
-- Shard.NextMaster that overlap are not modelled, nor is memory: a count in a request or a
-- response that asks for a slice larger than there is memory (UnpackUpdate, ProcessResp).
pub mod Prelude
pub mod Go
pub mod Iproto
pub mod Octopus
pub mod Cluster
pub mod Package
pub mod Parser
pub mod Checker
pub mod App
pub mod Text
pub mod Workers
pub mod Sync
pub mod Tests
