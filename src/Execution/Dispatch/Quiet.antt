-- ===== src/Execution/Dispatch/Quiet.antt =====
-- A dispatch never panics: the crawl mode that CreateScheduledJob dereferences has been checked.
use ingest_srv.Shared.{
  ℕ, String, true, Option, none, some, List, [], ◌∷◌, ◌≡◌, ◌≢◌, ◌⊎◌, inl, inr, arith, is_some,
  count, length, nat_eq, ltb,
}
use ingest_srv.Model.{ExternalTask, ScheduledJob, Message, CrawlTarget, DataSource}
use ingest_srv.Runtime.{World, Env, Outcome, panic}
use ingest_srv.Runtime.Steps.{
  Reads-pure, Reads-fail, Reads-query, Reads-reading, Reads-new_id, Reads-call,
}
use ingest_srv.Runtime.Calm.{
  Calm, Calm-Reads, Calm-bind, Calm-attempt, Calm-statement, Calm-transaction, Calm-if,
}
use ingest_srv.Execution.Options.{
  StoreErr, dispatch_conflict, DispatchContext, CreateJobOptions, CreateTaskOptions,
  PublishedOptions, FailedOptions, FinalizeOptions,
}
use ingest_srv.Execution.Services.{Services, Reply, answer, failure}
use ingest_srv.Execution.Store.Status.{
  change_target, change_source, update_target_failure, update_source_failure,
}
use ingest_srv.Execution.Store.Dispatch.{
  create_scheduled_job, create_external_task, mark_external_task_published,
  mark_external_task_failed, finalize_scheduled_job, time_or_now, record_failure, is_failure,
}
use ingest_srv.Execution.Store.Dispatch.Single.{
  Reads-boundary, Reads-required, Creates, refused, no_mode, created, create_scheduled_job-Creates,
}
use ingest_srv.Execution.Running.Dispatching.{Reads-domain_code}
use ingest_srv.Execution.Types.{Err, DispatchTargetInput, DispatchSpec}
use ingest_srv.Execution.Dispatch.{
  Sent, is_sent, failures, publish_dispatch, note_sent, marked, after_publish, after_create,
  with_code, dispatch_one_spec, dispatch_specs, partly, finish, with_job, dispatch_prepared, or_now,
}

Calm-mark_failed : (opt : FailedOptions) → Calm (mark_external_task_failed opt)
unfolding mark_external_task_failed
Calm-mark_failed opt =
    Calm-bind _ _ (Calm-Reads (Reads-query _ _))
      (λ found. Calm-bind _ _ (Calm-Reads (Reads-required _ found)) (λ row. Calm-statement _ _))

Calm-mark_published : (opt : PublishedOptions) → Calm (mark_external_task_published opt)
unfolding mark_external_task_published
Calm-mark_published opt =
    Calm-bind _ _ (Calm-Reads (Reads-query _ _))
      (λ found. Calm-bind _ _ (Calm-Reads (Reads-required _ found)) (λ row. Calm-statement _ _))

Calm-create_external_task :
    (env : Env) (opt : CreateTaskOptions) → Calm (create_external_task env opt)
unfolding create_external_task
Calm-create_external_task env opt =
    Calm-bind _ _ (Calm-Reads (Reads-new_id env))
      (λ id. Calm-bind _ _ (Calm-Reads (Reads-reading env)) (λ now. Calm-statement _ _))

Calm-change_target :
    (env : Env) (e : StoreErr) (f : CrawlTarget → CrawlTarget) (id : String)
    → Calm (change_target env e f id)
Calm-change_target env e f id = Calm-bind _ _ (Calm-Reads (Reads-query _ _)) (λ found.
    Calm-bind _ _ (Calm-Reads (Reads-required _ found))
      (λ row. Calm-bind _ _ (Calm-statement _ _) (λ _. Calm-Reads (Reads-pure _))))

Calm-change_source :
    (env : Env) (e : StoreErr) (f : DataSource → DataSource) (id : String)
    → Calm (change_source env e f id)
Calm-change_source env e f id = Calm-bind _ _ (Calm-Reads (Reads-query _ _)) (λ found.
    Calm-bind _ _ (Calm-Reads (Reads-required _ found))
      (λ row. Calm-bind _ _ (Calm-statement _ _) (λ _. Calm-Reads (Reads-pure _))))

Calm-time_or_now : (env : Env) (at : Option ℕ) → Calm (time_or_now env at)
unfolding time_or_now
Calm-time_or_now env none = Calm-Reads (Reads-reading env)
Calm-time_or_now env (some at) = Calm-Reads (Reads-pure at)

Calm-record_failure : (env : Env) (opt : FinalizeOptions) → Calm (record_failure env opt)
unfolding update_target_failure update_source_failure
Calm-record_failure env opt = Calm-bind _ _ (Calm-time_or_now env opt.completed_at) (λ at.
    Calm-bind _ _ (Calm-if _ _ _ (Calm-Reads (Reads-pure _)) (Calm-change_target env _ _ _))
      (λ _. Calm-change_source env _ _ _))

Calm-finalize : (env : Env) (opt : FinalizeOptions) → Calm (finalize_scheduled_job env opt)
unfolding finalize_scheduled_job
Calm-finalize env opt = Calm-transaction _ (
    Calm-bind _ _ (Calm-Reads (Reads-boundary _)) (λ _.
      Calm-bind _ _ (Calm-Reads (Reads-query _ _)) (λ found.
        Calm-bind _ _ (Calm-Reads (Reads-required _ found)) (λ row.
          Calm-bind _ _ (Calm-statement _ _) (λ _.
            Calm-bind _ _
              (Calm-if (is_failure env opt.status) _ _ (Calm-record_failure env opt)
                (Calm-Reads (Reads-pure _)))
              (λ _. Calm-Reads (Reads-boundary _)))))))

not_panic :
    (env : Env) (opt : CreateJobOptions) (w : World) (r : Outcome StoreErr ScheduledJob × World)
    → Creates env opt w r
    → is_some opt.source.crawl_mode ≡ true
    → r.0 ≢ panic
not_panic env opt w r (refused e is _) has = λ p. cc
not_panic env opt w r (no_mode lacks _ _) has = λ p. ground arith
not_panic env opt w r (created job is _ _ _ _) has = λ p. cc

Calm-create_scheduled_job :
    (env : Env) (opt : CreateJobOptions)
    → is_some opt.source.crawl_mode ≡ true
    → Calm (create_scheduled_job env opt)
Calm-create_scheduled_job env opt has = record {
  calm = λ w. not_panic env opt w _ (create_scheduled_job-Creates env opt w) has;
}

module _ (sv : Services) where
  Calm-note_sent : (m : Message) (reply : Option String) → Calm (note_sent sv {E = Err} m reply)
  Calm-note_sent m none = record { calm = λ w p. cc }
  Calm-note_sent m (some e) = record { calm = λ w p. cc }

  Calm-publish : (m : Message) → Calm (publish_dispatch sv {E = Err} m)
  unfolding publish_dispatch
  Calm-publish m = Calm-bind _ _ (Calm-Reads (Reads-call _)) (Calm-note_sent m)

  Calm-marked :
      (spec : DispatchSpec) (task_id : String) (task : ExternalTask) (at : ℕ)
      (r : Unit {0} ⊎ StoreErr)
      → Calm (marked sv spec task_id task at r)
  Calm-marked spec task_id task at (inl _) = Calm-Reads (Reads-pure _)
  Calm-marked spec task_id task at (inr e) =
      Calm-attempt _ _ (Calm-mark_failed _) (λ _. Calm-Reads (Reads-pure _))

  Calm-after_publish :
      (spec : DispatchSpec) (task_id : String) (task : ExternalTask) (at : ℕ) (r : Option String)
      → Calm (after_publish sv spec task_id task at r)
  Calm-after_publish spec task_id task at none =
      Calm-attempt _ _ (Calm-mark_published _) (Calm-marked spec task_id task at)
  Calm-after_publish spec task_id task at (some e) =
      Calm-attempt _ _ (Calm-mark_failed _) (λ _. Calm-Reads (Reads-pure _))

  Calm-after_create :
      (spec : DispatchSpec) (task_id : String) (at : ℕ) (r : ExternalTask ⊎ StoreErr)
      → Calm (after_create sv spec task_id at r)
  Calm-after_create spec task_id at (inr e) = Calm-Reads (Reads-pure _)
  Calm-after_create spec task_id at (inl task) =
      Calm-bind _ _ (Calm-publish _) (Calm-after_publish spec task_id task at)

  Calm-with_code :
      (c : DispatchContext) (job_id : String) (spec : DispatchSpec) (at : ℕ) (task_id : String)
      (r : Reply String)
      → Calm (with_code sv c job_id spec at task_id r)
  Calm-with_code c job_id spec at task_id (failure e) = Calm-Reads (Reads-pure _)
  Calm-with_code c job_id spec at task_id (answer code) =
      Calm-attempt _ _ (Calm-create_external_task sv.base _) (Calm-after_create spec task_id at)

  Calm-dispatch_specs :
      (c : DispatchContext) (job_id : String) (specs : List DispatchSpec) (at : ℕ)
      → Calm (dispatch_specs sv c job_id specs at)
  unfolding dispatch_specs dispatch_one_spec
  Calm-dispatch_specs c job_id [] at = Calm-Reads (Reads-pure _)
  Calm-dispatch_specs c job_id (spec ∷ specs) at =
      Calm-bind _ _
        (Calm-bind _ _ (Calm-Reads (Reads-new_id sv.base)) (λ task_id.
          Calm-bind _ _ (Calm-Reads (Reads-domain_code sv _))
            (Calm-with_code c job_id spec at task_id)))
        (λ one.
          Calm-bind _ _ (Calm-dispatch_specs c job_id specs at) (λ _. Calm-Reads (Reads-pure _)))

  Calm-partly :
      (job : ScheduledJob) (rs : List Sent) (r : Unit {0} ⊎ StoreErr) → Calm (partly sv job rs r)
  Calm-partly job rs (inl _) = Calm-Reads (Reads-pure _)
  Calm-partly job rs (inr e) = Calm-Reads (Reads-fail _)

  Calm-finish :
      (c : DispatchContext) (job : ScheduledJob) (at : ℕ) (rs : List Sent)
      → Calm (finish sv c job at rs)
  Calm-finish c job at rs =
      Calm-if (nat_eq (count is_sent rs) 0) _ _
        (Calm-attempt _ _ (Calm-finalize sv.base _) (λ _. Calm-Reads (Reads-fail _)))
        (Calm-if (ltb 0 (length (failures rs))) _ _
          (Calm-attempt _ _ (Calm-finalize sv.base _) (Calm-partly job rs))
          (Calm-Reads (Reads-pure _)))

  Calm-with_job :
      (c : DispatchContext) (specs : List DispatchSpec) (at : ℕ) (r : ScheduledJob ⊎ StoreErr)
      → Calm (with_job sv c specs at r)
  Calm-with_job c specs at (inl job) =
      Calm-bind _ _ (Calm-dispatch_specs c job.id specs at) (Calm-finish c job at)
  Calm-with_job c specs at (inr dispatch_conflict) = Calm-Reads (Reads-fail _)
  Calm-with_job c specs at (inr _) = Calm-Reads (Reads-fail _)

  pub Calm-or_now : (at : ℕ) → Calm (or_now {E = Err} sv.base at)
  Calm-or_now at = Calm-if _ _ _ (Calm-Reads (Reads-reading sv.base)) (Calm-Reads (Reads-pure at))

  pub Calm-dispatch_prepared :
      (c : DispatchContext) (specs : List DispatchSpec) (input : DispatchTargetInput)
      → is_some c.source.crawl_mode ≡ true
      → Calm (dispatch_prepared sv c specs input)
  unfolding dispatch_prepared
  Calm-dispatch_prepared c specs input has = Calm-if _ _ _ (Calm-Reads (Reads-fail _)) (
      Calm-bind _ _ (Calm-or_now input.requested_at) (λ at.
        Calm-attempt _ _ (Calm-create_scheduled_job sv.base _ has) (Calm-with_job c specs at)))
