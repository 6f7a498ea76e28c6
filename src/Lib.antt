-- ===== src/Lib.antt =====
-- FrostDB, an embeddable columnar database in Go: the parts that decide which writes are durable
-- and visible.
--
-- A write begins a transaction (db.go), puts its record into the write-ahead log (wal/wal.go) and
-- into the index of its table (index/lsm.go), and then calls the closure that begin returned,
-- which hands the transaction to the pool of completed ones (tx_list.go). The cleaner of the pool
-- raises the high watermark. A read begins at the high watermark and scans the parts whose
-- transaction is not above it.
--
-- - Base: tests, lists, orders, signed integers and results with errors.
-- - TxPool: tx_list.go. The list between head and tail is a list of nodes with their marks;
--   TxPool.insert is Insert with its retries, delete is delete with the function of cleaner, live
--   is what Iterate shows. TxPool/Isolation: begin, its closure, beginRead and resetToTxn of
--   db.go and cleaner of tx_list.go, one atomic access a step, in any order.
-- - Wal: wal/wal.go. drain and finish are the two critical sections of a tick of run, with
--   collect for its loop over the queue; truncate, reset, log, log_record and open_wal are
--   Truncate, Reset, Log, LogRecord and Open. Wal/Order: these in any order. Wal/Replay: Replay,
--   with the error of TruncateBack as a parameter.
-- - Index: index/lsm.go, index/lsm_list.go and the parts of parts/. A node is the list from it
--   on. Index/Merge: merge, compact and Rotate. Index/Scan: Scan.
-- - Plan: the expressions of query/logicalplan/expr.go and Accept, with the state of a visitor
--   passed on; Plan/Exprs: Name, MatchColumn, ColumnsUsedExprs, Clone and the conjunctions, a
--   panic being none. Plan/Optimize and Plan/Average: the optimizers of
--   query/logicalplan/optimize.go, which change a plan in place there and return the changed one
--   here; a plan is what validation lets pass, one operator at each input. Plan/Validate:
--   ValidateFilterExpr of query/logicalplan/validate.go, whose messages are constructors;
--   Plan/Leaves: the columns and literals in an expression, in the order in which they are
--   visited.
-- - Filter: query/expr. min_of, max_of and pages_operation are Min, Max and
--   BinaryScalarOperation, eval is Eval; Filter/Build: BooleanExpr and ArrowScalarToParquetValue
--   (pqarrow/parquet.go). A null is none. Filter/Rows: what it means that an index describes the
--   values of a column chunk.
-- - Groups: pqarrow/arrowutils/groupranges.go. The switch over array types is a kind of array and
--   its values; a heap is the list of its elements in order, as container/heap pops them.
-- - Recovery: recover of db.go with the blocks of table.go. first_handler and second_handler are
--   the handlers of its two replays, which run on Wal/Replay. A block is the list of its records,
--   the index forgotten; a map of tables is its lookup. How the goroutines run is a parameter:
--   which writes have yet to run when a block begins, and go to that one (is_late), and which
--   blocks that ended writeBlock has dropped when recover returns (is_dropped).
-- - Snapshots: snapshot.go, with reclaimDiskSpace and Table of db.go. A directory is the list of
--   its files, the last name first; a footer is the list of its tables, and a part is its bytes,
--   which a parameter reads. Snapshots/Load: loadSnapshot.
-- - Parts: FindMaximumNonOverlappingSet of parts/part.go. A part is its identity with its least
--   and its most row, each of which may be an error; Sweep are the variables of the loop, prev
--   being a part and not an index.
-- - Blocks: the end of writeBlock of table.go, which notes a persisted block, with
--   getMinTXPersisted and maintainWAL of db.go. The map of tables is the list of what they have
--   completed; the errors of Truncate are dropped there and here.
-- - Physical: filter.go, binaryscalarexpr.go, regexpfilter.go and planordering.go of
--   query/physicalplan, with shouldPlanOrderedAggregate of physicalplan.go. An array is the list
--   of its values, a null being none, so that slices and their concatenation are those of lists;
--   eval_rows is Eval, filter_record is filter, a panic is a failure. Physical/Cells and
--   Physical/Kept say of one row what an expression says. The set of equality columns is a list.
-- - Dynamic: dynparquet/dynamiccolumns.go, with MergeDynamicColumnSets, mergeStrings and
--   mapMergedColumnNameIndexes of dynparquet/schema.go. A map is the list of its entries, in any
--   order, and -1 is none.
--
-- Bounds and fuel: transactions are uint64 and wrap in the definitions; the theorems follow a
-- counter until it would wrap. TxPool.insert takes one unit of fuel for each walk, and a walk
-- that starts over has unlinked a marked node, so that one more than their number is enough. The
-- loops that read dynamic columns have a round for each byte of the text and one more, and each
-- takes a byte at least; running out of rounds is a result of its own. Loops over levels and
-- records count the rounds left. Sizes of levels are int64 in the source and integers here.
--
-- Not modelled: metrics, logging, reference counts, files and object storage. Third-party code is
-- a parameter: the log store, the Arrow record that is written and the row group, the filter on a
-- row group where the index is scanned, values of Parquet files and their order, bloom filters,
-- bitmaps, regular expressions. Where the values of Arrow arrays matter, in Groups and Physical,
-- an array is its values, as the library documents them. The compaction functions of table.go are
-- a parameter of the index, with what they keep as hypotheses.
pub mod Base
pub mod TxPool
pub mod Wal
pub mod Index
pub mod Plan
pub mod Filter
pub mod Groups
pub mod Recovery
pub mod Snapshots
pub mod Parts
pub mod Blocks
pub mod Physical
pub mod Dynamic
