-- ===== src/Lib.antt =====
-- arana, a database proxy that splits logical tables over shards: the parts of it that carry its own
-- logic, as definitions that compute, with theorems on them. Each file names the source it is about.
--
-- Prelude: the names that every part uses. Prelude/Go has what a Go call does (it returns or it
--   panics), Prelude/Int the integers, Prelude/Bits the laws of the bit operations.
--
-- Mysql/Encoding (pkg/mysql/encoding.go): the integers and strings of MySQL's wire format. A packet is
--   a list of bytes, lenEncIntSize is `len_enc_int_size`, readLenEncString `read_len_enc_string`, and
--   so on for each function; indexing and slicing panic out of range, and `int(size)` wraps around at
--   64 bits. Integers, Fixed and Strings are about writing and reading back, Hostile about any bytes.
--
-- Mysql/Packets (pkg/mysql/conn.go): payloads in packets of at most MaxPacketSize bytes. writePacket is
--   `write_packet`, which gives the bytes that go out and the sequence number behind them; readPacket is
--   `read_packet` over the bytes that come in. The loop of the writer runs on fuel of the payload's
--   length and 1, as each turn but the last sends a byte at least; that of the reader on any fuel from
--   the payload's length on. Mysql/Ephemeral has the buffer of bufPool that a connection may have for
--   one packet, and its policy: startEphemeralPacket is `start_packet`.
--
-- Sequence/Snowflake (pkg/sequence/snowflake/snowflake.go): the generator is a record, the clock a list
--   of the stamps that it will show, Acquire is `acquire`, findWorkID and initWorkerID are
--   `find_work_id` and `init_worker_id` over the rows of the table for one logic table. The wait of
--   Acquire runs over that list: `none` means that the stamps end first, and Clock says when they do
--   not.
--
-- Sequence/Group (pkg/sequence/group/group.go): numbers are int64 as 64-bit patterns, with Go's
--   arithmetic in Sequence/Words; the generator, the row that all nodes share, and the
--   call that fails, if one does, are arguments of `acquire` and `acquire_next_group`. Group/Cluster
--   has any number of nodes over that row, with a step for each Acquire and each restart, in any order.
--
-- Calc/Logic (pkg/runtime/calc/logic/logic.go): formulas over the comparisons of a statement, from which
--   the shards of a statement are computed. NOT is `not_logic`, OR `or_logic` with its helpers in
--   Calc/Logic/Or, AND `and_logic` with its helpers in Calc/Logic/And, Compare and Less are in
--   Calc/Logic/Order. Calc/Logic/Meaning says what a formula means. The B-tree of
--   github.com/google/btree is a parameter, Calc/BTree. AND calls itself on the members of its
--   arguments and runs on fuel, twice the number of nodes of both: every call but the one that swaps
--   its arguments is on fewer nodes, and that one is followed by a smaller one.
--
-- Rule/Sharding (pkg/proto/rule/rule.go): the virtual shards of a table, with the variables that a
--   sync.Once keeps. VTable.Shard is `shard`, SearchVShard `search_vshard`; both also give the virtual
--   shards as they leave them. A ShardComputer is a record of its variables and its function, a
--   parameter, as is the type of values.
--
-- Rule/Steps (pkg/proto/rule/range.go): steppers and the ranges of values they give. An int32, int or
--   int64 is a word of its width in two's complement, a time a number of nanoseconds. compute and
--   computeRange are `compute` and `compute_range`, the Next of the five iterators is `next`; the
--   random texts of one of them are an argument. The loop that reads a range, `drain`, is on fuel of
--   the count and 1.
--
-- Rule/Shards (pkg/proto/rule/shards.go): sets of shards in a B-tree of packed keys, again a parameter;
--   IntersectionShards and UnionShards are `intersection_shards` and `union_shards`.
--
-- Rule/Topology (pkg/proto/rule/topology.go): the databases and their tables as a list of entries, with
--   `set_topology`, `exists`, `each`, `len`, and `smallest` before it makes names of its result.
--
-- Dataset (pkg/dataset): an object of proto.Dataset is a state with its Next and Close, in
--   Dataset/Streams, where `Runs` says which rows it gives and how it ends. An error is io.EOF or an
--   element of a type of errors; errors.Wrap keeps the error and its text is left out;
--   a generator or a transform of rows whose own error is io.EOF is left out. Dataset/Filter has
--   VirtualDataset and FilterDataset, Dataset/Transform TransformDataset, Dataset/Fuse FuseableDataset, Dataset/Pipe the
--   options of chain.go. A filter calls itself for each row that it drops, on fuel of more than the rows.
--
-- Dataset/Group (group_reduce.go): `group_next` is GroupDataset.Next with its goroutine and its loop one
--   after the other, and Group/Race has the two side by side over their channels, as steps in any
--   order. The reducer is a parameter. The fuel is more than the number of rows, as each turn reads one.
--
-- Dataset/Queue (priority_queue.go) is the queue of rows on the heap of the standard library,
--   Dataset/Parallel (parallel.go) the streams from which a row is taken in turn, and Dataset/Ordered
--   (ordered.go) merges them: `ordered_next`. A slice is a length and a function on the indexes. up and
--   down of the heap run on fuel of the index and of the length.
--
-- Dataset/Reduce (reduce.go and pkg/reduce): ReduceDataset.Next is `reduce_next`, on fuel of more than
--   the rows; a slice of values is a function on the indexes of the fields. Merge/Aggregator
--   (pkg/merge/aggregator): the three aggregators of one value share `aggregate`, and AVG has its own.
--
-- The parts meet where a statement is routed: the formula of its conditions says which comparisons
-- hold, the steppers turn comparisons into values, and the virtual shards turn values into a database
-- and a table; the sequences give the values of keys that the statement leaves open. The rows of the
-- shards come back as packets and are put together by the data sets: fused, merged in order, grouped, reduced.
--
-- Not modelled: the plans, the optimizer and the syntax trees, which rest on a parser that is not in
-- the repository; the executor and the connections, which are calls of a database or of the network;
-- configuration, registry, metrics, tracing and the admin interface, which are glue; the copies of other
-- projects in third_party. Left out as well are the database tables of pkg/proto/rule, the evaluation
-- of formulas, and the join of data sets. Writes to the network take all their bytes, and a read fails
-- only where the connection ends.
-- proto.CompareValue of pkg/proto/value.go is a parameter, with laws that it has on the values of one
-- family of types, such as those of a column. Locks are taken around whole operations and are left out.
pub mod Prelude
pub mod Mysql
pub mod Sequence
pub mod Calc
pub mod Rule
pub mod Dataset
pub mod Merge
