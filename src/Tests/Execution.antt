-- ===== src/Tests/Execution.antt =====
-- The execution component at work on a target of the test project, and its theorems there.
use ingest_srv.Shared.{
  ◌+◌, ◌*◌, true, false, none, some, [], ◌∷◌, ◌≡◌, ◌≢◌, refl, arith, pos, inl, trim_space, is_blank,
}
use ingest_srv.Json.{end}
use ingest_srv.Model.{
  DataSource, SourceStatus, ScheduledJob, ExternalTask, JobStatus, TriggerType, keyword, tiktok,
  normal,
}
use ingest_srv.Runtime.{
  World, ok, err, statement, query, pure, check, wrap, fail, reading, new_id, attempt, call,
  transaction, ◌>>=◌,
}
use ingest_srv.Runtime.Steps.{SameTables}
use ingest_srv.Execution.Options.{CreateJobOptions, ClaimOptions, CancelOptions}
use ingest_srv.Execution.Services.{Services, ProjectStatus, Storage, answer}
use ingest_srv.Execution.Types.{DispatchTargetInput, DueInput, CompletionInput, Err}
use ingest_srv.Execution.Interval.{minute, compute_effective_interval, effective_minutes}
use ingest_srv.Execution.Interval.Bounds.{Scheduled, effective_interval-Scheduled}
use ingest_srv.Execution.Store.{save_task, boundary}
use ingest_srv.Execution.Store.Status.{recomputed, expected_task_count}
use ingest_srv.Execution.Store.Status.Classes.{Classified, recomputed-Classified}
use ingest_srv.Execution.Store.Dispatch.{
  create_scheduled_job, get_dispatch_context, insert_job, job_row, create_external_task,
  insert_task, task_row, mark_external_task_published, to_published,
}
use ingest_srv.Execution.Store.Dispatch.Single.{Creates, create_scheduled_job-Creates}
use ingest_srv.Execution.Store.Due.{
  claim_target, claim_rows, claimable, claimed, list_due_targets, rank_due_target_ids,
}
use ingest_srv.Execution.Store.Due.Claims.{claim_once}
use ingest_srv.Execution.Store.Completion.{get_completion_context}
use ingest_srv.Execution.Store.Cancel.{cancel_project_runtime}
use ingest_srv.Execution.Store.Cancel.Cancels.{Cancels, cancel_project_runtime-Cancels}
use ingest_srv.Execution.Specs.{build_dispatch_specs}
use ingest_srv.Execution.Specs.Tasks.{Builds, build_dispatch_specs-Builds}
use ingest_srv.Execution.Dispatch.{
  dispatch_target, dispatch_prepared, dispatch_specs, dispatch_one_spec, publish_dispatch,
  resolve_project_domain_type_code, validate_dispatch_context,
}
use ingest_srv.Execution.Cron.{
  dispatch_due_targets, dispatch_all, dispatch_due_target, validate_scheduled_dispatch_context,
  resolve_scheduled_dispatch_project_state,
}
use ingest_srv.Execution.Cron.Tally.{Beats, dispatch_due_targets-Beats}
use ingest_srv.Execution.Complete.{handle_completion, verify_minio_object, is_cancelled}
use ingest_srv.Execution.Complete.Delivery.{handle_completion-ignores}
use ingest_srv.Execution.Complete.Atomic.{Untouched, handle_completion-Atomic}
use ingest_srv.Execution.Complete.Retries.{Attempts, verify_minio_object-Attempts}
use ingest_srv.Execution.Running.{Single}
use ingest_srv.Execution.Running.Heartbeat.{here, next, beats, dispatches, Reach-Single}
use ingest_srv.Tests.{env, source, target, world}

abbrev storage : Storage
storage = record {
  file_exists = λ bucket path w. answer true;
  file_info = λ bucket path w. answer (pos 7);
}

abbrev services : Services
services = record {
  base = env;
  project = some (λ id w. answer (record { status = ProjectStatus.active; domain_type_code = "" }));
  publish = some (λ m w. none);
  storage = some storage;
  parser = none;
  parse_url = λ s. none;
  parse_time = λ s. none;
  integer = λ s. pos 2;
  tiktok_queue = "tiktok_tasks";
  facebook_queue = "facebook_tasks";
  youtube_queue = "youtube_tasks";
}

abbrev due_world : World
due_world = record world { targets = target "active" ∷ [] }

abbrev crawl : DataSource
crawl = source "active" SourceStatus.active

abbrev beat : DueInput
beat = record { now = 5; limit = 10; cron_expr = "" }

abbrev dispatch : DispatchTargetInput
dispatch = record {
  data_source_id = "active";
  target_id = "t";
  trigger_type = none;
  scheduled_for = 0;
  requested_at = 3;
  cron_expr = "";
}

abbrev task : ExternalTask
task = record {
  id = "task";
  source_id = "active";
  project_id = "project";
  domain_type_code = "generic";
  target_id = "t";
  scheduled_job_id = "job";
  task_id = "correlation";
  platform = "tiktok";
  task_type = "full_flow";
  routing_key = "tiktok_tasks";
  request_payload = "";
  status = JobStatus.cancelled;
  published_at = none;
  response_received_at = none;
  completed_at = some 4;
  error_message = "";
  created_at = 3;
}

abbrev job : ScheduledJob
job = record {
  id = "job";
  source_id = "active";
  project_id = "project";
  target_id = "t";
  status = JobStatus.partial;
  trigger_type = TriggerType.scheduled;
  cron_expr = "";
  crawl_mode = normal;
  scheduled_for = 3;
  started_at = some 3;
  completed_at = none;
  error_message = "";
  payload = "";
  created_at = 3;
}

abbrev busy : World
busy = record due_world { work = record { jobs = job ∷ []; tasks = task ∷ []; batches = [] } }

abbrev completion : CompletionInput
completion = record {
  task_id = "correlation";
  status = "Success";
  completed_at = "";
  storage_bucket = "raw";
  storage_path = "a.json";
  batch_id = "batch";
  checksum = "";
  item_count = none;
  error = "";
  metadata = end;
}

named : is_blank "t" ≡ false
unfolding is_blank
named = refl

effective_interval-Scheduled_example :
    Scheduled (some normal) (pos 11) (compute_effective_interval crawl (target "active"))
effective_interval-Scheduled_example = effective_interval-Scheduled crawl (target "active")

create_scheduled_job-Creates_example :
    let opt : CreateJobOptions = record {
      source = crawl;
      target = target "active";
      trigger_type = none;
      scheduled_for = 0;
      cron_expr = "";
      job_payload = "";
      created_at = 3;
    } in
    Creates env opt due_world (create_scheduled_job env opt due_world)
create_scheduled_job-Creates_example = create_scheduled_job-Creates env _ due_world

Reach-Single_example :
    Single "t"
      (dispatch_due_targets services beat (dispatch_target services dispatch due_world).1).1.work
Reach-Single_example =
    Reach-Single "t" named {w = due_world} (omega arith)
      (next (next here (dispatches services dispatch)) (beats services beat))

cancel_project_runtime-Cancels_example :
    let opt : CancelOptions = record { project_id = "project"; reason = ""; canceled_at = 9 } in
    Cancels (trim_space "project") busy (cancel_project_runtime env opt busy)
cancel_project_runtime-Cancels_example = cancel_project_runtime-Cancels env _ busy

build_dispatch_specs-Builds_example :
    Builds services tiktok keyword
      ("coffee" ∷ [])
      (build_dispatch_specs services crawl (target "active"))
build_dispatch_specs-Builds_example = build_dispatch_specs-Builds services crawl (target "active")

dispatch_due_targets-Beats_example : Beats (dispatch_due_targets services beat due_world)
dispatch_due_targets-Beats_example = dispatch_due_targets-Beats services refl beat due_world

expected : expected_task_count services "" 1 ≡ 1
unfolding expected_task_count
expected = refl

recomputed-Classified_example :
    Classified
      (task ∷ [])
      (expected_task_count services "" 1)
      (recomputed services (task ∷ []) 9 job)
unfolding expected_task_count
recomputed-Classified_example = recomputed-Classified services task [] 9 job (omega arith)

verify_minio_object-Attempts_example :
    Attempts services storage "raw" "a.json" 3 "" due_world
      (verify_minio_object services "raw" "a.json" due_world)
verify_minio_object-Attempts_example =
    verify_minio_object-Attempts services storage "raw" "a.json" due_world refl

handle_completion-ignores_example : SameTables busy (handle_completion services completion busy).1
unfolding trim_space is_cancelled
handle_completion-ignores_example =
    handle_completion-ignores services completion task busy refl (inl refl)

unknown_task :
    (handle_completion services completion due_world).0 ≡ err Err.completion_task_not_found
unfolding handle_completion get_completion_context check wrap query fail ◌>>=◌ trim_space
unknown_task = refl

handle_completion-Atomic_example :
    Untouched due_world (handle_completion services completion due_world).1
handle_completion-Atomic_example =
    handle_completion-Atomic services completion due_world Err.completion_task_not_found
      unknown_task

abbrev claim : ClaimOptions
claim = record {
  source_id = "active";
  target_id = "t";
  claimed_at = 5;
  next_crawl_at = 5 + 11 * minute;
}

interval : compute_effective_interval crawl (target "active") ≡ some (11 * minute)
unfolding compute_effective_interval effective_minutes
interval = refl

claim_wins : (claim_target env claim due_world).0 ≡ ok true
unfolding claim_target claim_rows claimable statement query boundary pure ◌>>=◌
claim_wins = refl

claim_once_example :
    (claim_target env
      (record { source_id = "active"; target_id = "t"; claimed_at = 6; next_crawl_at = 9 })
      (claim_target env claim due_world).1).0
    ≢ ok true
claim_once_example =
    claim_once env crawl (target "active") 5 6 due_world (claim_target env claim due_world).1
      (11 * minute) 9 interval (omega arith) claim_wins refl (omega arith)

-- A heartbeat claims and dispatches the only due target.
beat_runs :
    (dispatch_due_targets services beat due_world).0
    ≡ ok (record {
      due_count = 1;
      claimed_count = 1;
      dispatched_count = 1;
      skipped_race_count = 0;
      failed_count = 0;
    })
unfolding dispatch_due_targets dispatch_all dispatch_due_target validate_scheduled_dispatch_context
    validate_dispatch_context resolve_scheduled_dispatch_project_state
    resolve_project_domain_type_code list_due_targets rank_due_target_ids build_dispatch_specs
    compute_effective_interval effective_minutes claim_target claim_rows claimable claimed
    get_dispatch_context dispatch_prepared create_scheduled_job insert_job job_row dispatch_specs
    dispatch_one_spec create_external_task insert_task task_row publish_dispatch
    mark_external_task_published to_published save_task statement query boundary pure check wrap
    reading new_id attempt call transaction fail trim_space is_blank ◌>>=◌
beat_runs = refl
