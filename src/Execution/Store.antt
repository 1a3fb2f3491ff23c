-- ===== src/Execution/Store.antt =====
-- internal/execution/repository/postgre: the tables of jobs, tasks and batches, and the statements
-- that several of its files issue. The children model the files: `Dispatch` dispatch.go, `Due`
-- due_targets.go, `Status` helpers.go, `Completion` completion.go, `Cancel` cancel.go.
pub mod Status
pub mod Dispatch
pub mod Due
pub mod Cancel
pub mod Completion
use ingest_srv.Shared.{
  ℕ, String, Bool, true, false, Option, none, some, List, [], ◌∷◌, ◌==◌, ◌&&◌, first, is_some,
  trim_space, is_blank, update_where, if◌then◌else◌,
}
use ingest_srv.Model.{DataSource, CrawlTarget, ScheduledJob, ExternalTask, RawBatch, Work}
use ingest_srv.Runtime.{World, Env, Exec, ◌>>=◌, ◌>>◌, pure, fail, statement, query}
use ingest_srv.Repository.Sources as Sources
use ingest_srv.Repository.Targets as Targets

abbrev pub find_job : String → List ScheduledJob → Option ScheduledJob
find_job id = first (λ j. j.id == id)

abbrev pub find_task : String → List ExternalTask → Option ExternalTask
find_task id = first (λ t. t.id == id)

-- sqlboiler.FindCrawlTarget
abbrev pub find_target : String → List CrawlTarget → Option CrawlTarget
find_target id = first (λ t. t.id == id)

abbrev pub with_jobs : World → List ScheduledJob → World
with_jobs w jobs = record w { work = record w.work { jobs = jobs } }

abbrev pub with_tasks : World → List ExternalTask → World
with_tasks w tasks = record w { work = record w.work { tasks = tasks } }

abbrev pub with_batches : World → List RawBatch → World
with_batches w batches = record w { work = record w.work { batches = batches } }

-- UPDATE … WHERE id = row.id
unfoldable pub save_job : ScheduledJob → World → Option (Unit {0} × World)
unfolding update_where
save_job row w = some (tt, with_jobs w (update_where (λ j. j.id == row.id) (λ j. row) w.work.jobs))

unfoldable pub save_task : ExternalTask → World → Option (Unit {0} × World)
unfolding update_where
save_task row w =
    some (tt, with_tasks w (update_where (λ t. t.id == row.id) (λ t. row) w.work.tasks))

-- A row that a Find… must return: no row is an error like any other.
abbrev pub required {ℓ κ} : {E : Type ℓ} {A : Type κ} → E → Option A → Exec E A
required e none = fail e
required e (some a) = pure a

-- BeginTx, Commit, or the check of RowsAffected: it can fail, and does nothing to the tables.
unfoldable pub boundary {ℓ} : {E : Type ℓ} → E → Exec E (Unit {0})
boundary e = query e (λ w. tt)

-- The foreign keys to data_sources and crawl_targets; a NULL refers to nothing.
abbrev pub refers : String → String → World → Bool
refers source_id target_id w =
    is_some (Sources.find source_id w.sources)
    && (if target_id == "" then true else is_some (find_target target_id w.targets))
