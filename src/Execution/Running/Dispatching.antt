-- ===== src/Execution/Running/Dispatching.antt =====
-- At most one running job for a target: the use cases that dispatch one target.
use ingest_srv.Shared.{
  ℕ, String, false, Option, none, some, List, [], ◌∷◌, ◌≡◌, ◌⊎◌, inl, inr, refl, is_blank, length,
  count, nat_eq, ltb,
}
use ingest_srv.Model.{ExternalTask, ScheduledJob, JobStatus, Message}
use ingest_srv.Runtime.{Outcome, ok, err, panic}
use ingest_srv.Runtime.Steps.{
  Reads, Reads-pure, Reads-fail, Reads-query, Reads-reading, Reads-new_id, Reads-call, Reads-check,
  Reads-bind,
}
use ingest_srv.Runtime.Keeps.{Keeps, Keeps-Reads, Keeps-bind, Keeps-attempt, Keeps-wrap, Keeps-if}
use ingest_srv.Execution.Options.{StoreErr, dispatch_conflict, DispatchContext}
use ingest_srv.Execution.Services.{Services, Reply, answer, failure}
use ingest_srv.Execution.Store.Dispatch.{get_dispatch_context}
use ingest_srv.Execution.Store.Dispatch.Single.{Reads-boundary, Reads-required}
use ingest_srv.Execution.Store.Due.{list_due_targets, rank_due_target_ids, load_due}
use ingest_srv.Execution.Types.{Err, DispatchTargetInput, DispatchSpec}
use ingest_srv.Execution.Dispatch.{
  Sent, is_sent, failures, finalize_options, resolve_project_domain_type_code, publish_dispatch,
  note_sent, marked, after_publish, after_create, with_code, dispatch_one_spec, dispatch_specs,
  partly, finish, with_job, dispatch_prepared, prepared, dispatch_target, dispatch_target_manually,
  or_now,
}
use ingest_srv.Execution.Running.{
  Single, Keeps-create_scheduled_job, Keeps-mark_published, Keeps-mark_failed,
  Keeps-create_external_task, Keeps-finalize_scheduled_job,
}

pub Reads-domain_code {ℓ} :
    {E : Type ℓ} (sv : Services) (id : String)
    → Reads {E = E} (resolve_project_domain_type_code sv id)
unfolding resolve_project_domain_type_code
Reads-domain_code sv id = Reads-bind _ _ (Reads-call _) (λ reply. Reads-pure _)

pub Reads-get_dispatch_context :
    (source_id target_id : String) → Reads (get_dispatch_context source_id target_id)
unfolding get_dispatch_context
Reads-get_dispatch_context source_id target_id = Reads-bind _ _ (Reads-query _ _) (λ found.
    Reads-bind _ _ (Reads-required _ found) (λ source. Reads-bind _ _ (Reads-query _ _) (λ row.
      Reads-bind _ _ (Reads-required _ row)
        (λ target. Reads-bind _ _ (Reads-boundary _) (λ _. Reads-pure _)))))

Reads-load_due : (ids : List String) → Reads (load_due ids)
Reads-load_due [] = Reads-pure _
Reads-load_due (id ∷ ids) =
    Reads-bind _ _ (Reads-query _ _)
      (λ targets. Reads-bind _ _ (Reads-query _ _) (λ sources. Reads-pure _))

pub Reads-list_due_targets : (now limit : ℕ) → Reads (list_due_targets now limit)
unfolding list_due_targets rank_due_target_ids
Reads-list_due_targets now limit =
    Reads-bind _ _
      (Reads-bind _ _ (Reads-query _ _)
        (λ ids. Reads-bind _ _ (Reads-boundary _) (λ _. Reads-pure _)))
      Reads-load_due

module _ (target_id : String) (given : is_blank target_id ≡ false) (sv : Services) where
  Keeps-note_sent :
      (m : Message) (reply : Option String)
      → Keeps (Single target_id) (note_sent sv {E = Err} m reply)
  Keeps-note_sent m none = record { kept = λ w q. q }
  Keeps-note_sent m (some e) = record { kept = λ w q. q }

  Keeps-publish : (m : Message) → Keeps (Single target_id) (publish_dispatch sv {E = Err} m)
  unfolding publish_dispatch
  Keeps-publish m = Keeps-bind _ _ _ (Keeps-Reads _ (Reads-call _)) (Keeps-note_sent m)

  Keeps-marked :
      (spec : DispatchSpec) (task_id : String) (task : ExternalTask) (at : ℕ)
      (r : Unit {0} ⊎ StoreErr)
      → Keeps (Single target_id) (marked sv spec task_id task at r)
  Keeps-marked spec task_id task at (inl _) = Keeps-Reads _ (Reads-pure _)
  Keeps-marked spec task_id task at (inr e) =
      Keeps-attempt _ _ _ (Keeps-mark_failed target_id given _) (λ _. Keeps-Reads _ (Reads-pure _))

  Keeps-after_publish :
      (spec : DispatchSpec) (task_id : String) (task : ExternalTask) (at : ℕ) (r : Option String)
      → Keeps (Single target_id) (after_publish sv spec task_id task at r)
  Keeps-after_publish spec task_id task at none =
      Keeps-attempt _ _ _ (Keeps-mark_published target_id given _)
        (Keeps-marked spec task_id task at)
  Keeps-after_publish spec task_id task at (some e) =
      Keeps-attempt _ _ _ (Keeps-mark_failed target_id given _) (λ _. Keeps-Reads _ (Reads-pure _))

  Keeps-after_create :
      (spec : DispatchSpec) (task_id : String) (at : ℕ) (r : ExternalTask ⊎ StoreErr)
      → Keeps (Single target_id) (after_create sv spec task_id at r)
  Keeps-after_create spec task_id at (inr e) = Keeps-Reads _ (Reads-pure _)
  Keeps-after_create spec task_id at (inl task) =
      Keeps-bind _ _ _ (Keeps-publish _) (Keeps-after_publish spec task_id task at)

  Keeps-with_code :
      (c : DispatchContext) (job_id : String) (spec : DispatchSpec) (at : ℕ) (task_id : String)
      (r : Reply String)
      → Keeps (Single target_id) (with_code sv c job_id spec at task_id r)
  Keeps-with_code c job_id spec at task_id (failure e) = Keeps-Reads _ (Reads-pure _)
  Keeps-with_code c job_id spec at task_id (answer code) =
      Keeps-attempt _ _ _ (Keeps-create_external_task target_id given sv.base _)
        (Keeps-after_create spec task_id at)

  Keeps-dispatch_one_spec :
      (c : DispatchContext) (job_id : String) (spec : DispatchSpec) (at : ℕ)
      → Keeps (Single target_id) (dispatch_one_spec sv c job_id spec at)
  unfolding dispatch_one_spec
  Keeps-dispatch_one_spec c job_id spec at =
      Keeps-bind _ _ _ (Keeps-Reads _ (Reads-new_id sv.base)) (λ task_id.
        Keeps-bind _ _ _ (Keeps-Reads _ (Reads-domain_code sv _))
          (Keeps-with_code c job_id spec at task_id))

  Keeps-dispatch_specs :
      (c : DispatchContext) (job_id : String) (specs : List DispatchSpec) (at : ℕ)
      → Keeps (Single target_id) (dispatch_specs sv c job_id specs at)
  unfolding dispatch_specs
  Keeps-dispatch_specs c job_id [] at = Keeps-Reads _ (Reads-pure _)
  Keeps-dispatch_specs c job_id (spec ∷ specs) at =
      Keeps-bind _ _ _ (Keeps-dispatch_one_spec c job_id spec at) (λ one.
        Keeps-bind _ _ _ (Keeps-dispatch_specs c job_id specs at)
          (λ _. Keeps-Reads _ (Reads-pure _)))

  Keeps-partly :
      (job : ScheduledJob) (rs : List Sent) (r : Unit {0} ⊎ StoreErr)
      → Keeps (Single target_id) (partly sv job rs r)
  Keeps-partly job rs (inl _) = Keeps-Reads _ (Reads-pure _)
  Keeps-partly job rs (inr e) = Keeps-Reads _ (Reads-fail _)

  Keeps-finish :
      (c : DispatchContext) (job : ScheduledJob) (at : ℕ) (rs : List Sent)
      → Keeps (Single target_id) (finish sv c job at rs)
  Keeps-finish c job at rs =
      Keeps-if _ (nat_eq (count is_sent rs) 0) _ _
        (Keeps-attempt _ _ _
          (Keeps-finalize_scheduled_job target_id given sv.base
            (finalize_options sv c job JobStatus.failed rs (some at)) refl)
          (λ _. Keeps-Reads _ (Reads-fail _)))
        (Keeps-if _ (ltb 0 (length (failures rs))) _ _
          (Keeps-attempt _ _ _
            (Keeps-finalize_scheduled_job target_id given sv.base
              (finalize_options sv c job JobStatus.partial rs none) refl)
            (Keeps-partly job rs))
          (Keeps-Reads _ (Reads-pure _)))

  Keeps-with_job :
      (c : DispatchContext) (specs : List DispatchSpec) (at : ℕ) (r : ScheduledJob ⊎ StoreErr)
      → Keeps (Single target_id) (with_job sv c specs at r)
  Keeps-with_job c specs at (inl job) =
      Keeps-bind _ _ _ (Keeps-dispatch_specs c job.id specs at) (Keeps-finish c job at)
  Keeps-with_job c specs at (inr dispatch_conflict) = Keeps-Reads _ (Reads-fail _)
  Keeps-with_job c specs at (inr _) = Keeps-Reads _ (Reads-fail _)

  pub Keeps-or_now : (at : ℕ) → Keeps (Single target_id) (or_now {E = Err} sv.base at)
  Keeps-or_now at =
      Keeps-if _ _ _ _ (Keeps-Reads _ (Reads-reading sv.base)) (Keeps-Reads _ (Reads-pure at))

  pub Keeps-dispatch_prepared :
      (c : DispatchContext) (specs : List DispatchSpec) (input : DispatchTargetInput)
      → Keeps (Single target_id) (dispatch_prepared sv c specs input)
  unfolding dispatch_prepared
  Keeps-dispatch_prepared c specs input = Keeps-if _ _ _ _ (Keeps-Reads _ (Reads-fail _)) (
      Keeps-bind _ _ _ (Keeps-or_now input.requested_at) (λ at.
        Keeps-attempt _ _ _ (Keeps-create_scheduled_job target_id given sv.base _)
          (Keeps-with_job c specs at)))

  Keeps-prepared :
      (c : DispatchContext) (input : DispatchTargetInput) (r : Outcome Err (List DispatchSpec))
      → Keeps (Single target_id) (prepared sv c input r)
  Keeps-prepared c input (ok specs) = Keeps-dispatch_prepared c specs input
  Keeps-prepared c input (err e) = Keeps-Reads _ (Reads-fail e)
  Keeps-prepared c input panic = record { kept = λ w q. q }

  pub Keeps-dispatch_target :
      (input : DispatchTargetInput) → Keeps (Single target_id) (dispatch_target sv input)
  unfolding dispatch_target
  Keeps-dispatch_target input =
      Keeps-bind _ _ _ (Keeps-wrap _ _ _ (Keeps-Reads _ (Reads-get_dispatch_context _ _)))
        (λ c. Keeps-bind _ _ _ (Keeps-Reads _ (Reads-check _)) (λ _. Keeps-prepared c input _))

  pub Keeps-dispatch_target_manually :
      (source_id id : String) → Keeps (Single target_id) (dispatch_target_manually sv source_id id)
  unfolding dispatch_target_manually
  Keeps-dispatch_target_manually source_id id =
      Keeps-bind _ _ _ (Keeps-Reads _ (Reads-reading sv.base)) (λ now. Keeps-dispatch_target _)
