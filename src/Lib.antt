-- ===== src/Lib.antt =====
-- zrepl replicates ZFS filesystems between hosts and prunes their snapshots. This library models the
-- decisions of both.
--
-- Parts and how they meet: replication (replication/logic) asks both endpoints for their versions,
-- finds the incremental path between them (replication/logic/diff), turns it into steps, and runs each step by three calls on
-- the endpoints. Pruning (pruning) applies keep rules to a list of snapshots, one of them the
-- retention grid (pruning/retentiongrid), and destroys what no rule keeps. The driver
-- (replication/driver) runs the steps through a queue. The endpoints protect versions by holds and
-- bookmarks (endpoint) and destroy snapshots in batches (zfs). A job takes the filesystems that its
-- filter passes (daemon/filters).
--
-- - Replication/Version, Replication/Diff: replication/logic/diff/diff.go. `incremental_path` is
--   IncrementalPath; a conflict is a value of the data type Conflict.
-- - Replication/Planner: replication/logic/replication_logic.go. `try_autoresolve_conflict` is
--   tryAutoresolveConflict; `plan_resumed` and `plan_incremental` are the two branches of
--   Filesystem.doPlanning, `do_planning` (Planner/Planning) is all of it with the queries and the
--   size estimates; `plan_filesystems` (Planner/Filesystems) is Planner.doPlanning, and
--   `do_replication` (Planner/Replicate) is Step.doReplication.
-- - Replication/StepQueue: replication/driver/replication_stepqueue.go. `submit`, `wait`,
--   `wake`, `complete` and `stop` are what the goroutines of Start do under their lock, with the sleep on
--   the condition variable and its broadcasts; `Step` is any of them.
-- - Replication/Driver: replication/driver/replication_driver.go and the states of
--   replication/report/replication_report.go. A turn (Driver/Turns) is what fs.do of one filesystem does
--   while it holds the lock; `after_plan` cuts the plan to what an earlier attempt left, `inspect_parent`
--   is the loop over the parents and `settle` wakes the children. Driver/Global is doGlobalPlanning. Driver/Report has fs.report,
--   attempt.report, errorReport and MostRecent, and Driver/Attempts the loop of Do, with one round of
--   recursion for each of the attempts that are left.
-- - Pruning/Grid: pruning/retentiongrid/retentiongrid.go. `fit_entries` is Grid.FitEntries.
-- - Pruning/Rules: pruning/pruning.go and the keep rules beside it. `prune_snapshots` is
--   PruneSnapshots.
-- - Zfs/Destroy: zfs/versions_destroy.go. `do_destroy` is doDestroy; the calls of the destroyer and the
--   errors that are set are logs. The argument of a call is a text, in which a comma in a name is like one
--   between names. `destroy_batch` (doDestroyBatchedRec) recurs on fuel, and the length
--   of the batch is enough of it, since each call halves the batch; `group_batches` likewise.
-- - Zfs/DatasetPath: the type DatasetPath of zfs/zfs.go.
-- - Zfs/Namecheck: zfs/namecheck.go. `entity_namecheck` is EntityNamecheck; a name is a list of bytes.
-- - Filters: daemon/filters/fsmapfilter.go. `map_path` and `filter` are Map and Filter of
--   DatasetMapFilter, `chosen` is the entry that mostSpecificPrefixMapping finds.
-- - Endpoint/Guarantees: endpoint/endpoint_guarantees.go. The methods of the three strategies return
--   what is to be kept and the log of what was created.
-- - Pruning/Config: config/retentiongrid.go and newKeepGrid in pruning/keep_grid.go.
--   `parse_intervals` is ParseRetentionIntervalSpec on what its regular expression finds.
-- - Pruner: daemon/pruner/pruner.go and pruner_queue.go. `do_one_attempt` is doOneAttempt, `plan_fs`
--   (Pruner/Plan) the body of its first loop and `exec_result` (Pruner/Exec) doOneAttemptExec. The loop
--   over the queue has one round of fuel more than there are filesystems, which is enough, since each
--   round completes one.
-- - Util/CircLog: util/circlog/circlog.go. `write` is Write, in the parts `grow`, `truncate` and
--   `put_data`; `Written` is a log after any writes, with all the bytes that they have taken.
-- - Prelude: Boolean tests, lists over the native numbers, sorts, integers, results.
-- - Tests: concrete runs.
--
-- Code that is not in the repository is a parameter: `sort.Slice` is any sort that permutes its input
-- into an ordered list (SliceSort), so no theorem depends on how it orders ties; container/heap is any
-- heap that takes out a least element; regular expressions are tests on strings. Arguments are also the
-- answers of the endpoints, of `zfs send`, of the parser of resume tokens and of the destroyer of
-- snapshots, whether a hold or a bookmark can be created, and the order in which concurrent size
-- estimates finish. Points in time and durations
-- are integers. A panic is a value. Loops are structural recursion, but for the ones on fuel named
-- above.
--
-- Not modelled: the snapper and its hooks, the jobs, the RPC layer and how the endpoints carry out a
-- request; and, since they are input and output or glue to libraries: networking, the commands of the
-- zfs program, the decoding of the configuration, the user interface, logging and metrics.
pub mod Prelude
pub mod Replication
pub mod Pruning
pub mod Zfs
pub mod Filters
pub mod Pruner
pub mod Endpoint
pub mod Util
pub mod Tests
