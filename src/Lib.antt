-- ===== src/Lib.antt =====
-- The ingest service: its data sources, crawl targets, crawl modes and the crawl work.
--
-- The service keeps data sources (a TikTok crawl, a file upload, a webhook) for projects, each with
-- crawl targets (keywords, profiles, posts). HTTP handlers call the use cases of
-- internal/datasource/usecase, which check their input, read and write PostgreSQL through
-- internal/datasource/repository/postgre, and call the project service, the analytics service and
-- the execution component. A heartbeat calls the execution component, internal/execution, which
-- claims the targets that are due, creates a scheduled job with external tasks for each, publishes
-- the tasks to the crawlers, and takes their completions in: a raw batch, and new statuses of the
-- task, its job, its target and its data source.
--
-- The parts and their files:
--   * Model is internal/model: the enumerations, the rows, and in Model/Jobs those of the crawl work.
--   * Runtime is what a use case runs in. A `World` holds the tables, the messages and requests that
--     were sent, the records published, the objects stored and a schedule of failures, of which each statement and each call of the analytics
--     service takes one entry. An `Exec` is a function from worlds to an outcome (a value, an error, a
--     panic) and a world. `transaction` puts the tables back on an error, `attempt` hands an error
--     over as a value, `call` asks another service. Runtime/Steps has one proof rule for each way to
--     build an action, Runtime/Keeps those for a predicate that an action keeps, Runtime/Calm those
--     for an action that never panics, Runtime/Spares those for one that leaves the dry runs alone, Runtime/Unsent
--     those for one that sends no message; Runtime/Values tells what an action that succeeded has
--     done on its way.
--   * Json is what encoding/json decodes and reflect.DeepEqual compares.
--   * Repository is internal/datasource/repository: Options its options and errors, Sources, Targets
--     and Modes the files datasource.go, target.go and crawl_mode_change.go under postgre, with the
--     CHECK constraints of migrations/001_create_schema_ingest_v1.sql. A statement is a function
--     from tables to an answer and tables, or is rejected.
--   * Datasource is internal/datasource: Types its inputs and errors; Validate and Guards
--     usecase/helpers.go; Crud datasource.go; Lifecycle datasource_lifecycle.go; Readiness and
--     Project project_lifecycle.go; Targets target.go, target_visibility.go and
--     analytics_exclusions.go; Dryrun dryrun.go.
--   * Execution is internal/execution: Options its repository/errors.go and option.go, Types its
--     inputs and errors, Services what it calls and does not implement. Store/Dispatch, Store/Due,
--     Store/Cancel, Store/Completion and Store/Status are dispatch.go, due_targets.go, cancel.go,
--     completion.go and helpers.go under repository/postgre. Dispatch is usecase/usecase.go, Cron
--     cron.go, Complete consumer.go and runtime_control.go; usecase/helpers.go is in the files of
--     its callers, in Interval (the crawl interval) and in Specs (the tasks of a target).
--   * Dryrun is internal/dryrun: Types its types and errors and what it calls, Store and Results
--     CompleteResult and the other operations of repository/postgre, Trigger usecase/usecase.go and
--     Complete usecase/consumer.go; usecase/helpers.go is in these, in Plan (the task of a dry run)
--     and in Sample (what an artifact yields). It calls the use cases of Datasource.
--   * Uap is internal/uap: Types its types and errors and what it calls, Store
--     repository/postgre/raw_batch.go, Records and Lines attribution.go, registry.go and the shared
--     parts of helpers_common.go under usecase, Batch usecase.go and publisher.go: a raw batch is
--     claimed, its parser run, every record published, and the records stored in chunks.
--   * Execution/Running has the invariant on running jobs, and Execution/Running/Heartbeat its
--     histories of steps.
--   * The files below a component hold its proofs, or tables and helpers that its name says. Tests
--     has a small project and runs the theorems on it, Tests/Execution on a few jobs, Tests/Dryrun on
--     an artifact and a failed dry run, and Tests/Uap on a raw batch.
--
-- Names follow the source: ActivateDataSource is `activate_data_source`. The methods of the use
-- case that share a name with a repository method have `_of` added (`update_target_of`).
--
-- Parameters, gathered in the record `Env`: the clock, UUIDs, encoding/json, time.Format,
-- url.Parse, the clients of the project service and of the execution component, the configuration,
-- and which rows another transaction has locked. `Services` adds what only Execution calls: the
-- project's status, the RabbitMQ publisher, the MinIO client, the uap parser, url.Parse, time.Parse
-- and the names of the queues; `DryrunServices` adds what only Dryrun calls: Go's conversion of a
-- number to an integer, the decoder of warnings, files, MinIO, the RabbitMQ producer and
-- time.Parse. `UapServices` is what Uap calls: MinIO, the Kafka publisher, path.Join, and the three
-- parsers, each a function from a body to an error or to records, which are then published one by
-- one. An answer may depend on the world, so it may change between calls. Theorems hold for every
-- such environment, every world and every schedule of failures, unless they state a condition.
--
-- Bounds: every loop is over a list, except that `decimal` takes the number plus one as fuel, which
-- is more than its digits, that `chunks_from` takes the number of records, since each chunk has one
-- at least, and that verifyMinIOObject counts its three attempts down. The buffer of `itoa` has ten
-- bytes, as in the source. Integers are unbounded: the source only compares and adds small
-- counters. Times are nanoseconds, the multipliers of the crawl modes are fifths, with the rounding
-- of math.Round written out.
--
-- Not modelled: the three parsers of crawled items and the prefilter of YouTube comments, the
-- scheduler, delivery and RabbitMQ connections, configuration, the generated rows, paginated
-- listings, logs and timeouts, the output that DispatchTarget and Trigger return beside
-- ErrDispatchFailed, and the ordering of concurrent requests: a use case runs alone between the
-- statements that it issues.
pub mod Shared
pub mod Model
pub mod Json
pub mod Runtime
pub mod Repository
pub mod Datasource
pub mod Execution
pub mod Dryrun
pub mod Uap
pub mod Tests
