-- ===== src/Execution/Dispatch.antt =====
-- usecase/usecase.go, with the guards and calls of usecase/helpers.go that it makes: a target's crawl
-- tasks are created, published and marked.
pub mod Quiet
mod Payload
pub use Payload.*
unfoldable pub use Payload.{
  validate_dispatch_context, map_repository_error, unique_messages, summarize_dispatch_failures,
  show_trigger,
}
use Prim.Native.String.{◌++◌}
use ingest_srv.Shared.{
  ℕ, suc, ◌+◌, String, Bool, true, false, Option, none, some, List, [], ◌∷◌, ◌==◌, ◌&&◌, ◌⊎◌, inl,
  inr, any, length, count, is_some, nat_eq, ltb, trim_space, is_blank, decimal, is_empty,
  if◌then◌else◌,
}
use ingest_srv.Json.{Json, Items, Fields, nil, cons, end, field, num, str, arr, obj}
use ingest_srv.Model.{
  DataSource, CrawlTarget, ScheduledJob, ExternalTask, SourceStatus, JobStatus, TriggerType, manual,
  scheduled, project_event, crisis_event, webhook_push, Message, is_status, is_crawl,
}
use ingest_srv.Runtime.{
  World, Env, Exec, Outcome, ok, err, panic, ◌>>=◌, ◌>>◌, pure, fail, check, reading, new_id,
  attempt, call, wrap,
}
use ingest_srv.Execution.Options.{
  StoreErr, source_not_found, target_not_found, dispatch_conflict, DispatchContext, store_message,
  CreateJobOptions, CreateTaskOptions, FinalizeOptions,
}
use ingest_srv.Execution.Services.{
  Services, ProjectStatus, ProjectDetail, active, archived, Reply, answer, failure,
}
use ingest_srv.Execution.Store.Dispatch.{
  get_dispatch_context, create_scheduled_job, create_external_task, mark_external_task_published,
  mark_external_task_failed, finalize_scheduled_job, trigger_or_manual,
}
use ingest_srv.Execution.Types.{
  Err, dispatch_not_allowed, dispatch_failed, DispatchTargetInput, DispatchSpec, DispatchTaskOutput,
  DispatchTargetOutput,
}
use ingest_srv.Execution.Specs.{build_dispatch_specs}

module _ (sv : Services) where
  abbrev pub ask {ℓ} : {E : Type ℓ} → String → Exec E (Reply ProjectDetail)
  ask id = call (λ w. elim sv.project [
    | none ↦ failure "project client is not initialized"
    | some detail ↦ detail (trim_space id) w
  ])

  abbrev pub code_of : ProjectStatus → String → Reply String
  code_of archived code = failure "dispatch not allowed for target"
  code_of _ code = answer (if trim_space code == "" then "generic" else trim_space code)

  abbrev pub domain_code : Reply ProjectDetail → Reply String
  domain_code (answer d) = code_of d.status d.domain_type_code
  domain_code (failure e) = failure e

  unfoldable pub resolve_project_domain_type_code {ℓ} :
      {E : Type ℓ} → String → Exec E (Reply String)
  resolve_project_domain_type_code id = do reply ← ask id; pure (domain_code reply)

  -- buildJobPayload
  unfoldable pub build_job_payload : List DispatchSpec → DispatchTargetInput → String
  unfolding show_trigger decimal is_blank trim_space
  build_job_payload specs input = sv.base.marshal (
      obj (
        field "queue" (str (first_queue specs)) (
          field "action" (str (first_action specs)) (
            field "task_count" (num (decimal (length specs))) (
              field "tasks" (arr (task_items specs)) (
                with_trigger input.trigger_type (
                  when (ltb 0 input.scheduled_for) "scheduled_for"
                    (str (sv.base.rfc3339 input.scheduled_for))
                    (when (ltb 0 input.requested_at) "requested_at"
                      (str (sv.base.rfc3339 input.requested_at))
                      (when (if is_blank input.cron_expr then false else true) "cron_expr"
                        (str (trim_space input.cron_expr)) end)))))))))

  unfoldable pub build_request_payload : String → DispatchSpec → ℕ → String
  build_request_payload task_id spec at = sv.base.marshal (
      obj (
        field "task_id" (str task_id) (
          field "action" (str spec.action) (
            field "params" (obj spec.params) (field "created_at" (str (sv.base.rfc3339 at)) end)))))

  abbrev published_by : Option (Message → World → Option String) → Message → World → Option String
  published_by none m w = some "execution publisher is not initialized"
  published_by (some send) m w = send m w

  abbrev pub note_sent {ℓ} :
      {E : Type ℓ} → Message → Option String → World → Outcome E (Option String) × World
  note_sent m none w = (ok none, record w { sent = m ∷ w.sent })
  note_sent m (some e) w = (ok (some e), w)

  -- Nothing, or the text of the error.
  unfoldable pub publish_dispatch {ℓ} : {E : Type ℓ} → Message → Exec E (Option String)
  publish_dispatch m = do answer' ← call (λ w. published_by sv.publish m w); note_sent m answer'

  abbrev pub message_of : DispatchSpec → String → ℕ → Message
  message_of spec task_id at = record {
    queue = spec.queue;
    task_id = task_id;
    action = spec.action;
    params = spec.params;
    created_at = at;
  }

  abbrev pub marked : DispatchSpec → String → ExternalTask → ℕ → Unit {0} ⊎ StoreErr → Exec Err Sent
  marked spec task_id task at (inl _) =
      pure (task_output spec task.id task_id JobStatus.running "", none)
  marked spec task_id task at (inr e) = do
    attempt (
        mark_external_task_failed
          (record { external_task_id = task.id; error_message = store_message e; failed_at = at }))
    pure (
      task_output spec task.id task_id JobStatus.failed (store_message e),
      some (store_message e),
    )

  abbrev pub after_publish :
      DispatchSpec → String → ExternalTask → ℕ → Option String → Exec Err Sent
  after_publish spec task_id task at (some e) = do
    attempt (
        mark_external_task_failed
          (record { external_task_id = task.id; error_message = e; failed_at = at }))
    pure (task_output spec task.id task_id JobStatus.failed e, some e)
  after_publish spec task_id task at none = do
    result ←
        attempt
          (mark_external_task_published (record { external_task_id = task.id; published_at = at }))
    marked spec task_id task at result

  abbrev pub after_create : DispatchSpec → String → ℕ → ExternalTask ⊎ StoreErr → Exec Err Sent
  after_create spec task_id at (inr e) =
      pure (task_output spec "" task_id JobStatus.failed failed_text, some failed_text)
  after_create spec task_id at (inl task) = do
    result ← publish_dispatch (message_of spec task_id at)
    after_publish spec task_id task at result

  abbrev pub with_code :
      DispatchContext → String → DispatchSpec → ℕ → String → Reply String → Exec Err Sent
  with_code c job_id spec at task_id (failure e) =
      pure (task_output spec "" task_id JobStatus.failed failed_text, some failed_text)
  with_code c job_id spec at task_id (answer code) = do
    created ← attempt (
        create_external_task sv.base (record {
          source = c.source;
          target = c.target;
          scheduled_job_id = job_id;
          task_id = task_id;
          queue = spec.queue;
          action = spec.action;
          domain_type_code = code;
          request_payload = build_request_payload task_id spec at;
          created_at = at;
        }))
    after_create spec task_id at created

  unfoldable pub dispatch_one_spec : DispatchContext → String → DispatchSpec → ℕ → Exec Err Sent
  unfolding build_request_payload
  dispatch_one_spec c job_id spec at = do
    task_id ← new_id sv.base
    code ← resolve_project_domain_type_code c.source.project_id
    with_code c job_id spec at task_id code

  unfoldable pub dispatch_specs :
      DispatchContext → String → List DispatchSpec → ℕ → Exec Err (List Sent)
  dispatch_specs c job_id [] at = pure []
  dispatch_specs c job_id (spec ∷ specs) at =
      let rest = dispatch_specs c job_id specs at in
      do one ← dispatch_one_spec c job_id spec at; others ← rest; pure (one ∷ others)

  abbrev pub output : ScheduledJob → JobStatus → List Sent → DispatchTargetOutput
  output job status results = record {
    scheduled_job_id = job.id;
    status = status;
    task_count = length results;
    published_count = count is_sent results;
    failed_count = length (failures results);
    tasks = outputs results;
  }

  abbrev pub finalize_options :
      DispatchContext → ScheduledJob → JobStatus → List Sent → Option ℕ → FinalizeOptions
  finalize_options c job status results at = record {
    scheduled_job_id = job.id;
    source_id = c.source.id;
    target_id = c.target.id;
    status = status;
    error_message = summarize_dispatch_failures (failures results) (length results);
    completed_at = at;
  }

  abbrev pub partly : ScheduledJob → List Sent → Unit {0} ⊎ StoreErr → Exec Err DispatchTargetOutput
  partly job results (inl _) = pure (output job JobStatus.partial results)
  partly job results (inr e) = fail dispatch_failed

  abbrev pub none_sent :
      DispatchContext → ScheduledJob → ℕ → List Sent → Exec Err DispatchTargetOutput
  none_sent c job at results = do
    attempt
        (finalize_scheduled_job sv.base (finalize_options c job JobStatus.failed results (some at)))
    fail dispatch_failed

  abbrev pub some_sent : DispatchContext → ScheduledJob → List Sent → Exec Err DispatchTargetOutput
  some_sent c job results = do
    result ←
        attempt
          (finalize_scheduled_job sv.base (finalize_options c job JobStatus.partial results none))
    partly job results result

  -- The switch on the counts. A failure to finalize a job of which nothing was published is only
  -- logged; the output that goes with that error is left out, since no caller reads it.
  abbrev pub finish : DispatchContext → ScheduledJob → ℕ → List Sent → Exec Err DispatchTargetOutput
  finish c job at results =
      if nat_eq (count is_sent results) 0
      then none_sent c job at results
      else if ltb 0 (length (failures results))
      then some_sent c job results
      else pure (output job JobStatus.running results)

  abbrev pub with_job :
      DispatchContext
      → List DispatchSpec
      → ℕ
      → ScheduledJob ⊎ StoreErr
      → Exec Err DispatchTargetOutput
  with_job c specs at (inl job) = do
    results ← dispatch_specs c job.id specs at
    finish c job at results
  with_job c specs at (inr dispatch_conflict) = fail dispatch_not_allowed
  with_job c specs at (inr _) = fail dispatch_failed

  abbrev pub job_options :
      DispatchContext → List DispatchSpec → DispatchTargetInput → ℕ → CreateJobOptions
  job_options c specs input at = record {
    source = c.source;
    target = c.target;
    trigger_type = some (trigger_or_manual input.trigger_type);
    scheduled_for = if nat_eq input.scheduled_for 0 then at else input.scheduled_for;
    cron_expr = input.cron_expr;
    job_payload = build_job_payload specs input;
    created_at = at;
  }

  unfoldable pub dispatch_prepared :
      DispatchContext → List DispatchSpec → DispatchTargetInput → Exec Err DispatchTargetOutput
  unfolding build_job_payload summarize_dispatch_failures
  dispatch_prepared c specs input = if is_empty specs then fail dispatch_not_allowed else do
    at ← or_now sv.base input.requested_at
    job ← attempt (create_scheduled_job sv.base (job_options c specs input at))
    with_job c specs at job

  abbrev pub prepared :
      DispatchContext
      → DispatchTargetInput
      → Outcome Err (List DispatchSpec)
      → Exec Err DispatchTargetOutput
  prepared c input (ok specs) = dispatch_prepared c specs input
  prepared c input (err e) = fail e
  prepared c input panic = λ w. (panic, w)

  unfoldable pub dispatch_target : DispatchTargetInput → Exec Err DispatchTargetOutput
  unfolding map_repository_error validate_dispatch_context
  dispatch_target input = do
    c ← wrap map_repository_error (get_dispatch_context input.data_source_id input.target_id)
    check (validate_dispatch_context c)
    prepared c input (build_dispatch_specs sv c.source c.target)

  unfoldable pub dispatch_target_manually : String → String → Exec Err DispatchTargetOutput
  dispatch_target_manually source_id target_id = do
    now ← reading sv.base
    dispatch_target (record {
      data_source_id = source_id;
      target_id = target_id;
      trigger_type = some manual;
      scheduled_for = now;
      requested_at = now;
      cron_expr = "";
    })
