-- ===== src/Execution/Running/Heartbeat.antt =====
-- At most one running job for a target: the heartbeat of the scheduler, the cancellation of a
-- project's work, and every history of these and of dispatches.
use ingest_srv.Shared.{
  ℕ, String, Bool, true, false, Option, none, some, List, [], ◌∷◌, ◌≡◌, ◌⊎◌, inl, inr, is_blank,
  trim_space, ◌==◌, subst, sym,
}
use ingest_srv.Runtime.{World, Outcome, ok, err, panic}
use ingest_srv.Runtime.Steps.{Reads-pure, Reads-fail, Reads-call, Reads-check, Reads-wrap}
use ingest_srv.Runtime.Keeps.{Keeps, Keeps-Reads, Keeps-bind, Keeps-attempt, Keeps-wrap, Keeps-if}
use ingest_srv.Execution.Options.{StoreErr, DispatchContext}
use ingest_srv.Execution.Services.{Services, ProjectDetail, Reply}
use ingest_srv.Execution.Types.{
  Err, dispatch_not_allowed, DispatchTargetInput, DispatchSpec, DueInput, DueOutput,
  DispatchTargetOutput, CancelInput,
}
use ingest_srv.Execution.Dispatch.{dispatch_target, dispatch_target_manually}
use ingest_srv.Execution.Cron.{
  detail_of, resolve_scheduled_dispatch_project_state, validate_scheduled_dispatch_context, release,
  after_dispatch, after_validate, after_reload, after_claim, with_interval, with_specs, if_valid,
  dispatch_due_target, dispatch_all, dispatch_due_targets,
}
use ingest_srv.Execution.Complete.{cancel_runtime}
use ingest_srv.Execution.Running.{
  Single, Keeps-cancel_project_runtime, Keeps-claim_target, Keeps-release_claim_target,
}
use ingest_srv.Execution.Running.Dispatching.{
  Reads-domain_code, Reads-get_dispatch_context, Reads-list_due_targets, Keeps-or_now,
  Keeps-dispatch_prepared, Keeps-dispatch_target, Keeps-dispatch_target_manually,
}

module _ (target_id : String) (given : is_blank target_id ≡ false) (sv : Services) where
  Keeps-detail_of :
      (client : Option (String → World → Reply ProjectDetail)) (id : String)
      → Keeps (Single target_id) (detail_of sv client id)
  Keeps-detail_of none id = record { kept = λ w q. q }
  Keeps-detail_of (some detail) id = record {
    kept = (Keeps-Reads (Single target_id) (Reads-call {E = Err} (detail id))).kept;
  }

  Keeps-project_state :
      (c : DispatchContext)
      → Keeps (Single target_id) (resolve_scheduled_dispatch_project_state sv c)
  unfolding resolve_scheduled_dispatch_project_state
  Keeps-project_state c =
      Keeps-if _ (trim_space c.source.project_id == "") _ _ (Keeps-Reads _ (Reads-fail _)) (
        Keeps-bind _ _ _ (Keeps-detail_of sv.project _) (λ detail.
          Keeps-bind _ _ _ (Keeps-Reads _ (Reads-check _)) (λ _.
            Keeps-bind _ _ _ (Keeps-Reads _ (Reads-domain_code sv _))
              (λ code. Keeps-Reads _ (Reads-check _)))))

  Keeps-validate :
      (c : DispatchContext) → Keeps (Single target_id) (validate_scheduled_dispatch_context sv c)
  unfolding validate_scheduled_dispatch_context
  Keeps-validate c =
      Keeps-bind _ _ _ (Keeps-Reads _ (Reads-check _))
        (λ _. Keeps-bind _ _ _ (Keeps-Reads _ (Reads-check _)) (λ _. Keeps-project_state c))

  Keeps-release :
      (d : DispatchContext) (out : DueOutput) → Keeps (Single target_id) (release sv d out)
  Keeps-release d out =
      Keeps-attempt _ _ _ (Keeps-release_claim_target target_id given sv.base _)
        (λ _. Keeps-Reads _ (Reads-pure _))

  Keeps-after_dispatch :
      (d : DispatchContext) (out : DueOutput) (r : DispatchTargetOutput ⊎ Err)
      → Keeps (Single target_id) (after_dispatch sv d out r)
  Keeps-after_dispatch d out (inl _) = Keeps-Reads _ (Reads-pure _)
  Keeps-after_dispatch d out (inr dispatch_not_allowed) = Keeps-Reads _ (Reads-pure _)
  Keeps-after_dispatch d out (inr _) = Keeps-release d _

  module _ (d : DispatchContext) (specs : List DispatchSpec) (now : ℕ) (cron_expr : String) where
    Keeps-after_validate :
        (out : DueOutput) (current : DispatchContext) (r : Unit {0} ⊎ Err)
        → Keeps (Single target_id) (after_validate sv d specs now cron_expr out current r)
    Keeps-after_validate out current (inl _) =
        Keeps-attempt _ _ _ (Keeps-dispatch_prepared target_id given sv current specs _)
          (Keeps-after_dispatch d out)
    Keeps-after_validate out current (inr e) = Keeps-release d _

    Keeps-after_reload :
        (out : DueOutput) (r : DispatchContext ⊎ StoreErr)
        → Keeps (Single target_id) (after_reload sv d specs now cron_expr out r)
    Keeps-after_reload out (inl current) =
        Keeps-attempt _ _ _ (Keeps-validate current) (Keeps-after_validate out current)
    Keeps-after_reload out (inr e) = Keeps-release d _

    Keeps-after_claim :
        (out : DueOutput) (r : Bool ⊎ StoreErr)
        → Keeps (Single target_id) (after_claim sv d specs now cron_expr out r)
    Keeps-after_claim out (inr e) = Keeps-Reads _ (Reads-pure _)
    Keeps-after_claim out (inl false) = Keeps-Reads _ (Reads-pure _)
    Keeps-after_claim out (inl true) =
        Keeps-attempt _ _ _ (Keeps-Reads _ (Reads-get_dispatch_context _ _)) (Keeps-after_reload _)

    Keeps-with_interval :
        (out : DueOutput) (interval : Option ℕ)
        → Keeps (Single target_id) (with_interval sv d specs now cron_expr out interval)
    Keeps-with_interval out none = Keeps-Reads _ (Reads-pure _)
    Keeps-with_interval out (some interval) =
        Keeps-attempt _ _ _ (Keeps-claim_target target_id given sv.base _) (Keeps-after_claim out)

  Keeps-with_specs :
      (d : DispatchContext) (now : ℕ) (cron_expr : String) (out : DueOutput)
      (r : Outcome Err (List DispatchSpec))
      → Keeps (Single target_id) (with_specs sv d now cron_expr out r)
  Keeps-with_specs d now cron_expr out (ok specs) = Keeps-with_interval d specs now cron_expr out _
  Keeps-with_specs d now cron_expr out (err e) = Keeps-Reads _ (Reads-pure _)
  Keeps-with_specs d now cron_expr out panic = record { kept = λ w q. q }

  Keeps-if_valid :
      (d : DispatchContext) (now : ℕ) (cron_expr : String) (out : DueOutput) (r : Unit {0} ⊎ Err)
      → Keeps (Single target_id) (if_valid sv d now cron_expr out r)
  Keeps-if_valid d now cron_expr out (inl _) = Keeps-with_specs d now cron_expr out _
  Keeps-if_valid d now cron_expr out (inr e) = Keeps-Reads _ (Reads-pure _)

  Keeps-dispatch_due_target :
      (now : ℕ) (cron_expr : String) (d : DispatchContext) (out : DueOutput)
      → Keeps (Single target_id) (dispatch_due_target sv now cron_expr d out)
  unfolding dispatch_due_target
  Keeps-dispatch_due_target now cron_expr d out =
      Keeps-attempt _ _ _ (Keeps-validate d) (Keeps-if_valid d now cron_expr out)

  Keeps-dispatch_all :
      (now : ℕ) (cron_expr : String) (ds : List DispatchContext) (out : DueOutput)
      → Keeps (Single target_id) (dispatch_all sv now cron_expr ds out)
  unfolding dispatch_all
  Keeps-dispatch_all now cron_expr [] out = Keeps-Reads _ (Reads-pure _)
  Keeps-dispatch_all now cron_expr (d ∷ ds) out =
      Keeps-bind _ _ _ (Keeps-dispatch_due_target now cron_expr d out)
        (Keeps-dispatch_all now cron_expr ds)

  pub Keeps-dispatch_due_targets :
      (input : DueInput) → Keeps (Single target_id) (dispatch_due_targets sv input)
  unfolding dispatch_due_targets
  Keeps-dispatch_due_targets input =
      Keeps-bind _ _ _ (Keeps-or_now target_id given sv input.now) (λ now.
        Keeps-bind _ _ _ (Keeps-Reads _ (Reads-wrap _ _ (Reads-list_due_targets _ _)))
          (λ due. Keeps-dispatch_all _ _ due _))

  pub Keeps-cancel_runtime :
      (input : CancelInput) → Keeps (Single target_id) (cancel_runtime sv input)
  unfolding cancel_runtime
  Keeps-cancel_runtime input =
      Keeps-if _ (trim_space input.project_id == "") _ _ (Keeps-Reads _ (Reads-fail _))
        (Keeps-wrap _ _ _ (Keeps-cancel_project_runtime target_id given sv.base _))

-- What may happen to the work while no crawler answers: a dispatch of one target, a heartbeat, the
-- cancellation of a project's work. Each call may meet any services and failures, and between
-- two calls everything but the work may change.
pub data Step (w : World) : World → Type 0 where
  dispatches : (sv : Services) (input : DispatchTargetInput) → Step w (dispatch_target sv input w).1
  dispatches_manually :
      (sv : Services) (source_id target_id : String)
      → Step w (dispatch_target_manually sv source_id target_id w).1
  beats : (sv : Services) (input : DueInput) → Step w (dispatch_due_targets sv input w).1
  cancels : (sv : Services) (input : CancelInput) → Step w (cancel_runtime sv input w).1
  elsewhere : {v : World} → v.work ≡ w.work → Step w v

pub data Reach (w : World) : World → Type 0 where
  here : Reach w w
  next : {u v : World} → Reach w u → Step u v → Reach w v

module _ (target_id : String) (given : is_blank target_id ≡ false) where
  Step-Single : {w v : World} → Step w v → Single target_id w.work → Single target_id v.work
  Step-Single {w} (dispatches sv input) q =
      (Keeps-dispatch_target target_id given sv input).kept w q
  Step-Single {w} (dispatches_manually sv source_id id) q =
      (Keeps-dispatch_target_manually target_id given sv source_id id).kept w q
  Step-Single {w} (beats sv input) q =
      (Keeps-dispatch_due_targets target_id given sv input).kept w q
  Step-Single {w} (cancels sv input) q = (Keeps-cancel_runtime target_id given sv input).kept w q
  Step-Single (elsewhere same) q = subst (Single target_id) (sym same) q

  -- However dispatches, heartbeats, cancellations and changes of other tables follow one another,
  -- whatever the services answer and whichever statements fail, a target with a nonblank identifier
  -- that starts with at most one RUNNING job never has two.
  pub Reach-Single : {w v : World} → Single target_id w.work → Reach w v → Single target_id v.work
  Reach-Single q here = q
  Reach-Single q (next path step) = Step-Single step (Reach-Single q path)
