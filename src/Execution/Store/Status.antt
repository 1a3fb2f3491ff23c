-- ===== src/Execution/Store/Status.antt =====
-- helpers.go: the outcome of a task, of its job, its target and its data source.
pub mod Classes
use ingest_srv.Shared.{
  ℕ, ◌+◌, ◌-◌, String, Bool, true, false, Option, none, some, List, [], ◌∷◌, ◌==◌, ◌&&◌, length,
  is_empty, ltb, nat_eq, trim_space, is_blank, select, ℤ, pos, negsuc, is_positive, if◌then◌else◌,
}
use ingest_srv.Json.{Json, obj, num, get}
use ingest_srv.Model.{DataSource, CrawlTarget, ScheduledJob, ExternalTask, JobStatus}
use ingest_srv.Runtime.{World, Env, Exec, ◌>>=◌, ◌>>◌, pure, fail, statement, query}
use ingest_srv.Repository.Sources as Sources
use ingest_srv.Repository.Targets as Targets
use ingest_srv.Execution.Options.{StoreErr, update_failed, complete_failed}
use ingest_srv.Execution.Services.{Services}
use ingest_srv.Execution.Store.{find_job, find_task, find_target, save_job, save_task, required}

-- How many tasks of a job succeeded, failed or were cancelled, and are under way; the first error.
pub record Tally : Type 0 where
  pub success_count : ℕ
  pub failed_count : ℕ
  pub running_count : ℕ
  pub first_error : String

abbrev add_failed : ExternalTask → Tally → Tally
add_failed t c = record c {
  failed_count = c.failed_count + 1;
  first_error = if c.first_error == "" then t.error_message else c.first_error;
}

abbrev add_task : JobStatus → ExternalTask → Tally → Tally
add_task JobStatus.success t c = record c { success_count = c.success_count + 1 }
add_task JobStatus.failed t c = add_failed t c
add_task JobStatus.cancelled t c = add_failed t c
add_task JobStatus.pending t c = record c { running_count = c.running_count + 1 }
add_task JobStatus.running t c = record c { running_count = c.running_count + 1 }
add_task JobStatus.partial t c = record c { running_count = c.running_count + 1 }

-- ORDER BY created_at ASC: the oldest task stands last in the table and is counted first.
unfoldable pub tally : List ExternalTask → Tally
tally [] = record { success_count = 0; failed_count = 0; running_count = 0; first_error = "" }
tally (t ∷ ts) = add_task t.status t (tally ts)

-- nullableString
abbrev pub nullable_string : String → String
nullable_string s = trim_space s

-- The switch on the counts, for `c` with the tasks that are missing counted as failed.
unfoldable pub close_job : Tally → ℕ → ℕ → ScheduledJob → ScheduledJob
close_job c expected at j =
    if ltb 0 c.running_count && ltb 0 c.failed_count
    then record j {
      status = JobStatus.partial;
      completed_at = none;
      error_message = nullable_string c.first_error;
    }
    else if ltb 0 c.running_count
    then record j { status = JobStatus.running; completed_at = none; error_message = "" }
    else if nat_eq c.success_count expected
    then record j { status = JobStatus.success; completed_at = some at; error_message = "" }
    else if nat_eq c.failed_count expected
    then record j {
      status = JobStatus.failed;
      completed_at = some at;
      error_message = nullable_string c.first_error;
    }
    else record j {
      status = JobStatus.partial;
      completed_at = some at;
      error_message = nullable_string c.first_error;
    }

unfoldable pub count_missing : ScheduledJob → ℕ → ℕ → Tally → Tally
count_missing j expected present c =
    if ltb present expected
    then record c {
      failed_count = c.failed_count + (expected - present);
      first_error = if c.first_error == "" then j.error_message else c.first_error;
    }
    else c

abbrev positive_or : ℕ → ℤ → ℕ
positive_or fallback (pos n) = if ltb 0 n then n else fallback
positive_or fallback (negsuc n) = fallback

unfoldable pub of_job : String → ExternalTask → Bool
of_job id t = t.scheduled_job_id == id

module _ (sv : Services) where
  abbrev task_count : ℕ → Option Json → ℕ
  task_count fallback (some (num n)) = positive_or fallback (sv.integer n)
  task_count fallback _ = fallback

  abbrev decoded_count : ℕ → Option Json → ℕ
  decoded_count fallback (some (obj fs)) = task_count fallback (get fs "task_count")
  decoded_count fallback _ = fallback

  -- expectedDispatchTaskCount
  unfoldable pub expected_task_count : String → ℕ → ℕ
  expected_task_count payload fallback =
      if payload == "" then fallback else decoded_count fallback (sv.base.unmarshal payload)

  -- The job after a recomputation over its tasks, of which there is one at least.
  unfoldable pub recomputed : List ExternalTask → ℕ → ScheduledJob → ScheduledJob
  unfolding tally close_job count_missing expected_task_count
  recomputed tasks at j =
      let expected = expected_task_count j.payload (length tasks) in
      close_job (count_missing j expected (length tasks) (tally tasks)) expected at j

  abbrev pub recompute_row : List ExternalTask → ℕ → ScheduledJob → Exec StoreErr (Unit {0})
  recompute_row [] at j = pure tt
  recompute_row (t ∷ ts) at j = statement complete_failed (save_job (recomputed (t ∷ ts) at j))

  unfoldable pub recompute_job_status : String → ℕ → Exec StoreErr (Unit {0})
  unfolding is_blank of_job
  recompute_job_status id at = if is_blank id then pure tt else do
    found ← query complete_failed (λ w. find_job id w.work.jobs)
    job ← required complete_failed found
    tasks ← query complete_failed (λ w. select (of_job id) w.work.tasks)
    recompute_row tasks at job

abbrev change_task : StoreErr → (ExternalTask → ExternalTask) → String → Exec StoreErr (Unit {0})
change_task e f id = do
  found ← query e (λ w. find_task id w.work.tasks)
  row ← required e found
  statement e (save_task (f row))

unfoldable pub to_success : ℕ → ExternalTask → ExternalTask
to_success at t = record t {
  status = JobStatus.success;
  response_received_at = some at;
  completed_at = some at;
  error_message = "";
}

unfoldable pub to_failure : String → ℕ → ExternalTask → ExternalTask
to_failure message at t = record t {
  status = JobStatus.failed;
  response_received_at = some at;
  completed_at = some at;
  error_message = message;
}

unfoldable pub update_task_success : String → ℕ → Exec StoreErr (Unit {0})
unfolding is_blank
update_task_success id at =
    if is_blank id then pure tt else change_task complete_failed (to_success at) id

unfoldable pub update_task_failure : String → String → ℕ → Exec StoreErr (Unit {0})
unfolding is_blank
update_task_failure id message at =
    if is_blank id then pure tt else change_task update_failed (to_failure message at) id

unfoldable pub succeed_target : ℕ → CrawlTarget → CrawlTarget
succeed_target at t = record t {
  last_success_at = some at;
  last_error_at = none;
  last_error_message = "";
}

unfoldable pub fail_target : String → ℕ → CrawlTarget → CrawlTarget
fail_target message at t = record t { last_error_at = some at; last_error_message = message }

unfoldable pub succeed_source : ℕ → DataSource → DataSource
succeed_source at s = record s {
  last_success_at = some at;
  last_error_at = none;
  last_error_message = "";
}

unfoldable pub fail_source : String → ℕ → DataSource → DataSource
fail_source message at s = record s { last_error_at = some at; last_error_message = message }

module _ (env : Env) where
  abbrev pub change_target :
      StoreErr → (CrawlTarget → CrawlTarget) → String → Exec StoreErr (Unit {0})
  change_target e f id = do
    found ← query e (λ w. find_target id w.targets)
    row ← required e found
    statement e (Targets.save env (f row))
    pure tt

  abbrev pub change_source :
      StoreErr → (DataSource → DataSource) → String → Exec StoreErr (Unit {0})
  change_source e f id = do
    found ← query e (λ w. Sources.find id w.sources)
    row ← required e found
    statement e (Sources.save env (some (f row)))
    pure tt

  unfoldable pub update_target_success : String → ℕ → Exec StoreErr (Unit {0})
  unfolding is_blank
  update_target_success id at =
      if is_blank id then pure tt else change_target complete_failed (succeed_target at) id

  unfoldable pub update_target_failure : String → String → ℕ → Exec StoreErr (Unit {0})
  unfolding is_blank
  update_target_failure id message at =
      if is_blank id then pure tt else change_target update_failed (fail_target message at) id

  unfoldable pub update_source_success : String → ℕ → Exec StoreErr (Unit {0})
  update_source_success id at = change_source complete_failed (succeed_source at) id

  unfoldable pub update_source_failure : String → String → ℕ → Exec StoreErr (Unit {0})
  update_source_failure id message at = change_source update_failed (fail_source message at) id
