-- ===== src/Execution/Store/Dispatch.antt =====
-- dispatch.go: the context of a dispatch, a new job or task, and the outcome of the publication.
pub mod Single
use ingest_srv.Shared.{
  ℕ, String, Bool, true, false, Option, none, some, List, [], ◌∷◌, ◌==◌, ◌&&◌, ◌||◌, not, any,
  is_some, nat_eq, trim_space, is_blank, to_lower, if◌then◌else◌,
}
use ingest_srv.Model.{
  DataSource, CrawlTarget, ScheduledJob, ExternalTask, CrawlMode, TriggerType, manual, JobStatus,
  show_source_type, is_job,
}
use ingest_srv.Runtime.{
  World, Env, Exec, Outcome, panic, ◌>>=◌, ◌>>◌, pure, fail, statement, query, reading, new_id,
  transaction,
}
use ingest_srv.Repository.Sources as Sources
use ingest_srv.Repository.Targets as Targets
use ingest_srv.Execution.Options.{
  StoreErr, source_not_found, target_not_found, create_failed, dispatch_conflict, update_failed,
  DispatchContext, CreateJobOptions, CreateTaskOptions, PublishedOptions, FailedOptions,
  FinalizeOptions,
}
use ingest_srv.Execution.Store.{
  find_job, find_task, with_jobs, with_tasks, save_job, save_task, required, boundary, refers,
}
use ingest_srv.Execution.Store.Status.{update_target_failure, update_source_failure}

-- Every failure of a query is reported as a missing row. The last query loads the relation of the
-- target to its data source.
unfoldable pub get_dispatch_context : String → String → Exec StoreErr DispatchContext
get_dispatch_context source_id target_id = do
  found ← query source_not_found (λ w. Sources.find (trim_space source_id) w.sources)
  source ← required source_not_found found
  row ← query target_not_found (λ w. Targets.find source.id (trim_space target_id) w.targets)
  target ← required target_not_found row
  boundary target_not_found
  pure (record { source = source; target = target })

abbrev pub trigger_or_manual : Option TriggerType → TriggerType
trigger_or_manual none = manual
trigger_or_manual (some t) = t

unfoldable pub job_row : CreateJobOptions → CrawlMode → String → ℕ → ScheduledJob
job_row opt mode id now = record {
  id = id;
  source_id = opt.source.id;
  project_id = opt.source.project_id;
  target_id = opt.target.id;
  status = JobStatus.running;
  trigger_type = trigger_or_manual opt.trigger_type;
  cron_expr = trim_space opt.cron_expr;
  crawl_mode = mode;
  scheduled_for = if nat_eq opt.scheduled_for 0 then opt.created_at else opt.scheduled_for;
  started_at = some opt.created_at;
  completed_at = none;
  error_message = "";
  payload = opt.job_payload;
  created_at = now;
}

-- INSERT, with the primary key and the foreign keys.
unfoldable pub insert_job : ScheduledJob → World → Option (ScheduledJob × World)
insert_job row w =
    if refers row.source_id row.target_id w && not (is_some (find_job row.id w.work.jobs))
    then some (row, with_jobs w (row ∷ w.work.jobs))
    else none

abbrev pub runs_for : String → ScheduledJob → Bool
runs_for target_id j = j.target_id == target_id && is_job JobStatus.running j.status

abbrev none_runs : Bool → Exec StoreErr (Unit {0})
none_runs true = fail dispatch_conflict
none_runs false = pure tt

module _ (env : Env) where
  abbrev insert_new : CreateJobOptions → CrawlMode → String → Exec StoreErr ScheduledJob
  insert_new opt mode id = do
    now ← reading env
    statement create_failed (insert_job (job_row opt mode id now))

  -- From BeginTx to Commit. The SELECT … FOR UPDATE keeps two of these on one target apart.
  abbrev guarded_insert : CreateJobOptions → CrawlMode → String → Exec StoreErr ScheduledJob
  guarded_insert opt mode id = do
    boundary create_failed
    locked ← query create_failed (λ w. Targets.find opt.source.id opt.target.id w.targets)
    required target_not_found locked
    exists ← query create_failed (λ w. any (runs_for opt.target.id) w.work.jobs)
    none_runs exists
    job ← insert_new opt mode id
    boundary create_failed
    pure job

  abbrev insert_either : CreateJobOptions → CrawlMode → String → Exec StoreErr ScheduledJob
  insert_either opt mode id =
      if is_blank opt.target.id
      then insert_new opt mode id
      else transaction (guarded_insert opt mode id)

  abbrev with_mode : CreateJobOptions → Option CrawlMode → String → Exec StoreErr ScheduledJob
  with_mode opt none id w = (panic, w)
  with_mode opt (some mode) id w = insert_either opt mode id w

  -- The dereference of a nil crawl mode panics.
  unfoldable pub create_scheduled_job : CreateJobOptions → Exec StoreErr ScheduledJob
  unfolding is_blank
  create_scheduled_job opt = do id ← new_id env; with_mode opt opt.source.crawl_mode id

unfoldable pub task_row : CreateTaskOptions → String → ℕ → ExternalTask
task_row opt id now = record {
  id = id;
  source_id = opt.source.id;
  project_id = opt.source.project_id;
  domain_type_code = opt.domain_type_code;
  target_id = opt.target.id;
  scheduled_job_id = trim_space opt.scheduled_job_id;
  task_id = opt.task_id;
  platform = to_lower (show_source_type opt.source.source_type);
  task_type = opt.action;
  routing_key = opt.queue;
  request_payload = opt.request_payload;
  status = JobStatus.pending;
  published_at = none;
  response_received_at = none;
  completed_at = none;
  error_message = "";
  created_at = now;
}

-- INSERT, with the primary key, the unique task_id and the foreign keys.
unfoldable pub insert_task : ExternalTask → World → Option (ExternalTask × World)
insert_task row w =
    if refers row.source_id row.target_id w
      && (if row.scheduled_job_id == ""
          then true
          else is_some (find_job row.scheduled_job_id w.work.jobs))
      && not (any (λ t. t.id == row.id || t.task_id == row.task_id) w.work.tasks)
    then some (row, with_tasks w (row ∷ w.work.tasks))
    else none

unfoldable pub create_external_task : Env → CreateTaskOptions → Exec StoreErr ExternalTask
create_external_task env opt = do
  id ← new_id env
  now ← reading env
  statement create_failed (insert_task (task_row opt id now))

unfoldable pub to_published : ℕ → ExternalTask → ExternalTask
to_published at t = record t {
  status = JobStatus.running;
  published_at = some at;
  error_message = "";
}

unfoldable pub mark_external_task_published : PublishedOptions → Exec StoreErr (Unit {0})
mark_external_task_published opt = do
  found ← query update_failed (λ w. find_task opt.external_task_id w.work.tasks)
  row ← required update_failed found
  statement update_failed (save_task (to_published opt.published_at row))

unfoldable pub to_unpublished : String → ℕ → ExternalTask → ExternalTask
to_unpublished message at t = record t {
  status = JobStatus.failed;
  completed_at = some at;
  error_message = message;
}

unfoldable pub mark_external_task_failed : FailedOptions → Exec StoreErr (Unit {0})
mark_external_task_failed opt = do
  found ← query update_failed (λ w. find_task opt.external_task_id w.work.tasks)
  row ← required update_failed found
  statement update_failed (save_task (to_unpublished opt.error_message opt.failed_at row))

unfoldable pub finalized : FinalizeOptions → ScheduledJob → ScheduledJob
unfolding is_blank
finalized opt j = record j {
  status = opt.status;
  completed_at = opt.completed_at;
  error_message = if is_blank opt.error_message then "" else opt.error_message;
}

module _ (env : Env) where
  -- timeNowOrCompletedAt
  unfoldable pub time_or_now : Option ℕ → Exec StoreErr ℕ
  time_or_now (some at) = pure at
  time_or_now none = reading env

  abbrev pub record_failure : FinalizeOptions → Exec StoreErr (Unit {0})
  record_failure opt = do
    at ← time_or_now opt.completed_at
    update_target_failure env opt.target_id (trim_space opt.error_message) at
    update_source_failure env opt.source_id (trim_space opt.error_message) at

  abbrev pub is_failure : JobStatus → Bool
  is_failure status = is_job JobStatus.failed status || is_job JobStatus.partial status

  unfoldable pub finalize_scheduled_job : FinalizeOptions → Exec StoreErr (Unit {0})
  finalize_scheduled_job opt = transaction (do
    boundary update_failed
    found ← query update_failed (λ w. find_job opt.scheduled_job_id w.work.jobs)
    row ← required update_failed found
    statement update_failed (save_job (finalized opt row))
    if is_failure opt.status then record_failure opt else pure tt
    boundary update_failed)
