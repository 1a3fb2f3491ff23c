-- ===== src/Execution/Store/Cancel.antt =====
-- cancel.go: the work of a project is cancelled in one transaction. The timeout of the transaction
-- is a failure of one of its statements.
pub mod Cancels
use ingest_srv.Shared.{
  ℕ, String, Bool, true, false, Option, none, some, List, [], ◌∷◌, ◌==◌, ◌&&◌, ◌||◌, not, any, ltb,
  nat_eq, is_some, trim_space, select, update_where, if◌then◌else◌,
}
use ingest_srv.Model.{CrawlTarget, ScheduledJob, ExternalTask, JobStatus, is_live_job, is_job}
use ingest_srv.Runtime.{
  World, Env, Exec, ◌>>=◌, ◌>>◌, pure, fail, statement, query, reading, transaction,
}
use ingest_srv.Repository.Targets as Targets
use ingest_srv.Execution.Options.{StoreErr, cancel_failed, CancelOptions}
use ingest_srv.Execution.Store.{find_target, with_jobs, with_tasks, required, boundary}

abbrev pub latest : Option ℕ → Option ℕ → Option ℕ
latest (some s) (some e) = if ltb s e then some e else some s
latest (some s) none = some s
latest none e = e

-- fallbackLastCrawlAt
unfoldable pub fallback_last_crawl_at : Option ℕ → Option ℕ → Option ℕ
fallback_last_crawl_at success_at error_at = latest success_at error_at

-- A target that is due again at once.
unfoldable pub unscheduled : CrawlTarget → CrawlTarget
unfolding fallback_last_crawl_at
unscheduled t = record t {
  next_crawl_at = none;
  last_crawl_at = fallback_last_crawl_at t.last_success_at t.last_error_at;
}

abbrev pub open_job : String → ScheduledJob → Bool
open_job project_id j = j.project_id == project_id && is_live_job j.status

abbrev pub open_task : String → ExternalTask → Bool
open_task project_id t =
    t.project_id == project_id
    && (is_job JobStatus.pending t.status || is_job JobStatus.running t.status)

unfoldable pub cancel_job : String → ℕ → ScheduledJob → ScheduledJob
cancel_job reason at j = record j {
  status = JobStatus.cancelled;
  completed_at = some at;
  error_message = reason;
}

unfoldable pub cancel_task : String → ℕ → ExternalTask → ExternalTask
cancel_task reason at t = record t {
  status = JobStatus.cancelled;
  completed_at = some at;
  error_message = reason;
}

abbrev pub contains : String → List String → Bool
contains id = any (λ s. s == id)

-- The targets of the jobs, each once: `seen` is the set of the loop.
unfoldable pub targets_of : List String → List ScheduledJob → List String
targets_of seen [] = []
targets_of seen (j ∷ js) =
    let id = trim_space j.target_id in
    let skip = id == "" || contains id seen in
    let rest = targets_of (if skip then seen else id ∷ seen) js in if skip then rest else id ∷ rest

unfoldable pub default_reason : String → String
default_reason reason =
    if trim_space reason == ""
    then "cancelled due to project lifecycle transition"
    else trim_space reason

module _ (env : Env) where
  unfoldable pub canceled_time : ℕ → Exec StoreErr ℕ
  canceled_time at = if nat_eq at 0 then reading env else pure at

  -- The loop over the targets.
  unfoldable pub unschedule : List String → Exec StoreErr (Unit {0})
  unschedule [] = pure tt
  unschedule (id ∷ ids) =
      let rest = unschedule ids in
      do
        found ← query cancel_failed (λ w. find_target id w.targets)
        row ← required cancel_failed found
        statement cancel_failed (Targets.save env (unscheduled row))
        rest

  unfoldable pub cancel_tasks : String → String → ℕ → World → Option (Unit {0} × World)
  cancel_tasks project_id reason at w =
      some (
        tt,
        with_tasks w (update_where (open_task project_id) (cancel_task reason at) w.work.tasks),
      )

  unfoldable pub cancel_jobs : String → String → ℕ → World → Option (Unit {0} × World)
  cancel_jobs project_id reason at w =
      some (tt, with_jobs w (update_where (open_job project_id) (cancel_job reason at) w.work.jobs))

  unfoldable pub cancel_body : String → String → ℕ → Exec StoreErr (Unit {0})
  cancel_body project_id reason at = do
    boundary cancel_failed
    jobs ← query cancel_failed (λ w. select (open_job project_id) w.work.jobs)
    statement cancel_failed (cancel_tasks project_id reason at)
    statement cancel_failed (cancel_jobs project_id reason at)
    unschedule (targets_of [] jobs)
    boundary cancel_failed

  unfoldable pub cancel_project_runtime : CancelOptions → Exec StoreErr (Unit {0})
  cancel_project_runtime opt = if trim_space opt.project_id == "" then fail cancel_failed else do
    at ← canceled_time opt.canceled_at
    transaction (cancel_body (trim_space opt.project_id) (default_reason opt.reason) at)
