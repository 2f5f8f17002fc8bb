-- ===== src/Lib.antt =====
-- The cardinality guardian of cardinalityprocessor/: a processor of the OpenTelemetry Collector that
-- counts the distinct values of each (metric, label) pair with HyperLogLog sketches and, when a pair
-- grows by more than its limit in an epoch, tags, overwrites or strips the label.
--
-- Parts, in the order in which a batch meets them:
--   Config       Config, Validate and ResolvedEnforcementMode of cardinalityprocessor/config.go, and
--                createDefaultConfig of cardinalityprocessor/factory.go.
--   Dispatch     ConsumeMetrics, processMetric and the loops over data points of
--                cardinalityprocessor/processor.go (`consume_metrics`, `process_data`, ...).
--   Enforce      handleAttributes and handleAttributesWithMode; `check_attribute` is the callback
--                that is handed to RemoveIf, `Pass` its mutable variables.
--   Processor    cardinalityProcessor with its 256 shards and counters, newCardinalityProcessor,
--                isProtected, getShard, getLimit and shouldDrop.
--   Tracker      the sketches, cached estimates and epochs of one pair: tracker.insert,
--                tracker.rotate and newTracker.
--   Reaggregate  cardinalityprocessor/reaggregation.go: the merge of the points that share an
--                identity once their labels are stripped. `merge_loop` is phase 2 on the slice itself.
--   Offenders    collectShardDeltas, sortOffenders and publishTopOffenders: the report of the
--                fastest growing pairs at the end of an epoch.
--   Rotation     rotate: one epoch ends for all shards, idle trackers are evicted, the counters of
--                the drop logs are reset.
--   Run          batches and rotations in any order, from a new processor.
--   Concurrent   calls of shouldDrop and the rotation as goroutines: `Move` and `Turn` are their steps
--                on the shared maps of pointers, counters and shard locks, `System` interleaves them.
--                Its Epoch runs the rotation alone, its Drops interleaves the callbacks that
--                strip labels with the end of a rotation.
--   Telemetry    cardinalityprocessor/internal/metadata/generated_telemetry.go; in its Callbacks the
--                callbacks of newCardinalityProcessor, and the constructor with its error paths.
--                The meter of the OpenTelemetry SDK is a parameter.
--   Lifecycle    Start, Shutdown and the goroutine with the ticker, as steps on `Life`.
--   Factory      NewFactory and createMetricsProcessor of cardinalityprocessor/factory.go, and
--                cardinalityprocessor/export_bench.go.
--   Metadatatest cardinalityprocessor/internal/metadatatest/generated_telemetrytest.go, and the
--                constants of cardinalityprocessor/internal/metadata/generated_status.go.
--   Stress       the stress tool of internal/cmd/stress/main.go, by the draws of its ticks.
--   Metrics      the messages of the collector's `pdata`, as far as they are read.
--   External     what the program calls and does not contain, as parameters: sketches, hash
--                functions, RemoveIf, Put and MoveAndAppendTo, with their documented laws.
--   Base         shared lists, maps, 64-bit words and texts.
--   Tests        concrete parameters, and each theorem applied to concrete inputs.
--
-- State and numbers. The state is a record that the operations take and return; outside Concurrent
-- and Lifecycle a run is sequential, and a section under a lock is one step. In Concurrent any
-- number of calls and the rotation take their steps in any order; a step there is one access to
-- the shared memory, or a section under a tracker's mutex or a read lock. A Go map is an
-- association list; where Go leaves the order of a range statement open, the order is an argument.
-- A `uint64` and an atomic `int64` are their bit patterns, with the wrap-around written out (`% 2
-- ^ 64`); a configured `int` is an integer. A float64 is its bit pattern, and its arithmetic is a
-- parameter. All loops are structural recursion on the slice or on the rounds that are left, so no
-- fuel is needed.
--
-- Not modelled: the interleaving of the rotation's report with calls, which is sequential only; the
-- options of NewTelemetryBuilder, which nobody gives; in the stress tool, the profiling server and
-- the exit after an hour.
pub mod Base
pub mod External
pub mod Config
pub mod Tracker
pub mod Processor
pub mod Enforce
pub mod Metrics
pub mod Reaggregate
pub mod Dispatch
pub mod Offenders
pub mod Rotation
pub mod Run
pub mod Concurrent
pub mod Telemetry
pub mod Lifecycle
pub mod Factory
pub mod Metadatatest
pub mod Stress
pub mod Tests
