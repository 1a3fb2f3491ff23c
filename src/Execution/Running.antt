-- ===== src/Execution/Running.antt =====
-- A target has at most one running job: the statements and repository operations that keep it so.
pub mod Dispatching
pub mod Heartbeat
use ingest_srv.Shared.{
  ℕ, suc, ◌+◌, ◌≤◌, String, Bool, true, false, Option, none, some, List, [], ◌∷◌, ◌≡◌, ◌==◌, ◌&&◌,
  ◌⊎◌, inl, inr, refl, ap, ◌∙◌, sym, subst, arith, eq_iff, any, count, is_blank, Bool-cases,
  if◌then◌else◌, update_where, count-update-le,
}
use ingest_srv.Model.{
  CrawlTarget, DataSource, ScheduledJob, ExternalTask, JobStatus, is_job, Work, Message,
}
use ingest_srv.Runtime.{World, Env, Outcome, ok, err, panic, Exec, statement, spent, Env}
use ingest_srv.Runtime.Steps.{
  Reads, Reads-pure, Reads-fail, Reads-query, Reads-reading, Reads-new_id, Reads-call,
}
use ingest_srv.Runtime.Keeps.{
  Keeps, Keeps-Reads, Keeps-bind, Keeps-attempt, Keeps-wrap, Keeps-statement, Keeps-transaction,
  Keeps-if,
}
use ingest_srv.Repository.Sources as Sources
use ingest_srv.Repository.Targets as Targets
use ingest_srv.Execution.Options.{
  StoreErr, CreateJobOptions, CreateTaskOptions, PublishedOptions, FailedOptions, FinalizeOptions,
  CancelOptions, ClaimOptions, ReleaseOptions,
}
use ingest_srv.Execution.Store.{required, boundary, save_task, save_job}
use ingest_srv.Execution.Store.Status.{
  change_target, change_source, update_target_failure, update_source_failure,
}
use ingest_srv.Execution.Store.Dispatch.{
  runs_for, create_scheduled_job, create_external_task, insert_task, task_row,
  mark_external_task_published, mark_external_task_failed, finalize_scheduled_job, finalized,
  time_or_now, record_failure, is_failure, to_published, to_unpublished,
}
use ingest_srv.Execution.Store.Dispatch.Single.{
  Reads-boundary, Reads-required, Creates, create_scheduled_job-Creates, refused, no_mode, created,
}
use ingest_srv.Execution.Store.Cancel.{
  cancel_project_runtime, cancel_body, cancel_tasks, cancel_jobs, unschedule, canceled_time,
  targets_of, open_job, cancel_job, open_task, default_reason, unscheduled,
}
use ingest_srv.Execution.Store.Due.{claim_target, claim_rows, release_claim_target, release_row}

abbrev pub Single : String → Work → Type 0
Single target_id k = count (runs_for target_id) k.jobs ≤ 1

count_none :
    (p : ScheduledJob → Bool) (jobs : List ScheduledJob) → any p jobs ≡ false → count p jobs ≡ 0
count_none p [] h = refl
count_none p (j ∷ jobs) h = ground (arith, count_none p jobs)

-- What leaves the work alone keeps every predicate of it.
Keeps-elsewhere {ℓ κ μ} :
    (Q : Work → Type μ) {E : Type ℓ} {A : Type κ} (e : E) (run : World → Option (A × World))
    → ((w : World) (r : A × World) → run w ≡ some r → r.1.work ≡ w.work)
    → Keeps Q (statement e run)
Keeps-elsewhere Q e run same = Keeps-statement Q e run (λ w r h q. subst Q (sym (same w r h)) q)

save_target-work :
    (env : Env) (t : CrawlTarget) (w : World) (r : CrawlTarget × World)
    → Targets.save env t w ≡ some r
    → r.1.work ≡ w.work
unfolding Targets.save
save_target-work env t w r h = ground arith

save_source-work :
    (env : Env) (s : DataSource) (w : World) (r : DataSource × World)
    → Sources.save env (some s) w ≡ some r
    → r.1.work ≡ w.work
unfolding Sources.save
save_source-work env s w r h = ground arith

save_task-jobs :
    (t : ExternalTask) (w : World) (r : Unit {0} × World)
    → save_task t w ≡ some r
    → r.1.work.jobs ≡ w.work.jobs
unfolding save_task
save_task-jobs t w r h = ground arith

insert_task-jobs :
    (t : ExternalTask) (w : World) (r : ExternalTask × World)
    → insert_task t w ≡ some r
    → r.1.work.jobs ≡ w.work.jobs
unfolding insert_task
insert_task-jobs t w r h = ground arith

module _ (target_id : String) (given : is_blank target_id ≡ false) where
  Keeps-jobs {ℓ κ} :
      {E : Type ℓ} {A : Type κ} (e : E) (run : World → Option (A × World))
      → ((w : World) (r : A × World) → run w ≡ some r → r.1.work.jobs ≡ w.work.jobs)
      → Keeps (Single target_id) (statement e run)
  Keeps-jobs e run same =
      Keeps-statement (Single target_id) e run
        (λ w r h q. subst (λ js. count (runs_for target_id) js ≤ 1) (sym (same w r h)) q)

  job-Single :
      (job : ScheduledJob) (id : String) (jobs : List ScheduledJob)
      → job.target_id ≡ id
      → (is_blank id ≡ false → any (runs_for id) jobs ≡ false)
      → count (runs_for target_id) jobs ≤ 1
      → count (runs_for target_id) (job ∷ jobs) ≤ 1
  job-Single job id jobs is free q = elim (Bool-cases (job.target_id == target_id)) [
    | inl same ↦
        let e : id ≡ target_id = sym is ∙ (eq_iff job.target_id target_id).0 same in
        let none_runs : any (runs_for target_id) jobs ≡ false =
          subst (λ i. any (runs_for i) jobs ≡ false) e (free (ap is_blank e ∙ given)) in
        ground (arith, count_none (runs_for target_id) jobs none_runs)
    | inr other ↦ rw other (omega arith)
  ]

  created-Single :
      (env : Env) (opt : CreateJobOptions) (w : World) (r : Outcome StoreErr ScheduledJob × World)
      → Creates env opt w r
      → Single target_id w.work
      → Single target_id r.1.work
  created-Single env opt w r (refused e answer work) q = subst (Single target_id) (sym work) q
  created-Single env opt w r (no_mode mode answer work) q = subst (Single target_id) (sym work) q
  created-Single env opt w r (created job answer status target free work) q =
      subst (Single target_id) (sym work) (job-Single job opt.target.id w.work.jobs target free q)

  pub Keeps-create_scheduled_job :
      (env : Env) (opt : CreateJobOptions) → Keeps (Single target_id) (create_scheduled_job env opt)
  Keeps-create_scheduled_job env opt = record {
    kept = λ w q. created-Single env opt w _ (create_scheduled_job-Creates env opt w) q;
  }

  pub Keeps-mark_published :
      (opt : PublishedOptions) → Keeps (Single target_id) (mark_external_task_published opt)
  unfolding mark_external_task_published
  Keeps-mark_published opt = Keeps-bind _ _ _ (Keeps-Reads _ (Reads-query _ _)) (λ found.
      Keeps-bind _ _ _ (Keeps-Reads _ (Reads-required _ found))
        (λ row. Keeps-jobs _ _ (save_task-jobs _)))

  pub Keeps-mark_failed :
      (opt : FailedOptions) → Keeps (Single target_id) (mark_external_task_failed opt)
  unfolding mark_external_task_failed
  Keeps-mark_failed opt = Keeps-bind _ _ _ (Keeps-Reads _ (Reads-query _ _)) (λ found.
      Keeps-bind _ _ _ (Keeps-Reads _ (Reads-required _ found))
        (λ row. Keeps-jobs _ _ (save_task-jobs _)))

  pub Keeps-create_external_task :
      (env : Env) (opt : CreateTaskOptions)
      → Keeps (Single target_id) (create_external_task env opt)
  unfolding create_external_task
  Keeps-create_external_task env opt = Keeps-bind _ _ _ (Keeps-Reads _ (Reads-new_id env)) (λ id.
      Keeps-bind _ _ _ (Keeps-Reads _ (Reads-reading env))
        (λ now. Keeps-jobs _ _ (insert_task-jobs (task_row opt id now))))

  Keeps-change_target :
      (env : Env) (e : StoreErr) (f : CrawlTarget → CrawlTarget) (id : String)
      → Keeps (Single target_id) (change_target env e f id)
  Keeps-change_target env e f id = Keeps-bind _ _ _ (Keeps-Reads _ (Reads-query _ _)) (λ found.
      Keeps-bind _ _ _ (Keeps-Reads _ (Reads-required _ found)) (λ row.
        Keeps-bind _ _ _ (Keeps-elsewhere _ _ _ (save_target-work env (f row)))
          (λ _. Keeps-Reads _ (Reads-pure _))))

  Keeps-change_source :
      (env : Env) (e : StoreErr) (f : DataSource → DataSource) (id : String)
      → Keeps (Single target_id) (change_source env e f id)
  Keeps-change_source env e f id = Keeps-bind _ _ _ (Keeps-Reads _ (Reads-query _ _)) (λ found.
      Keeps-bind _ _ _ (Keeps-Reads _ (Reads-required _ found)) (λ row.
        Keeps-bind _ _ _ (Keeps-elsewhere _ _ _ (save_source-work env (f row)))
          (λ _. Keeps-Reads _ (Reads-pure _))))

  Keeps-time_or_now : (env : Env) (at : Option ℕ) → Keeps (Single target_id) (time_or_now env at)
  unfolding time_or_now
  Keeps-time_or_now env none = Keeps-Reads _ (Reads-reading env)
  Keeps-time_or_now env (some at) = Keeps-Reads _ (Reads-pure at)

  Keeps-record_failure :
      (env : Env) (opt : FinalizeOptions) → Keeps (Single target_id) (record_failure env opt)
  unfolding update_target_failure update_source_failure
  Keeps-record_failure env opt = Keeps-bind _ _ _ (Keeps-time_or_now env opt.completed_at) (λ at.
      Keeps-bind _ _ _
        (Keeps-if _ _ _ _ (Keeps-Reads _ (Reads-pure _)) (Keeps-change_target env _ _ _))
        (λ _. Keeps-change_source env _ _ _))

  finalized-jobs :
      (opt : FinalizeOptions) (row : ScheduledJob) (w : World) (r : Unit {0} × World)
      → is_job JobStatus.running opt.status ≡ false
      → save_job (finalized opt row) w ≡ some r
      → Single target_id w.work
      → Single target_id r.1.work
  unfolding save_job finalized
  finalized-jobs opt row w r ends h q = ground (
    arith,
    count-update-le (runs_for target_id) (λ j. j.id == row.id) (λ j. finalized opt row)
        (λ j p t. ground arith) w.work.jobs,
  )

  -- A job is only ever finalized as FAILED or PARTIAL.
  pub Keeps-finalize_scheduled_job :
      (env : Env) (opt : FinalizeOptions)
      → is_job JobStatus.running opt.status ≡ false
      → Keeps (Single target_id) (finalize_scheduled_job env opt)
  unfolding finalize_scheduled_job
  Keeps-finalize_scheduled_job env opt ends = Keeps-transaction _ _ (
      Keeps-bind _ _ _ (Keeps-Reads _ (Reads-boundary _)) (λ _.
        Keeps-bind _ _ _ (Keeps-Reads _ (Reads-query _ _)) (λ found.
          Keeps-bind _ _ _ (Keeps-Reads _ (Reads-required _ found)) (λ row.
            Keeps-bind _ _ _
              (Keeps-statement _ _ _ (λ w r h q. finalized-jobs opt row w r ends h q))
              (λ _.
                Keeps-bind _ _ _
                  (Keeps-if _ _ _ _ (Keeps-record_failure env opt) (Keeps-Reads _ (Reads-pure _)))
                  (λ _. Keeps-Reads _ (Reads-boundary _)))))))

  cancelled-jobs :
      (env : Env) (project_id reason : String) (at : ℕ) (w : World) (r : Unit {0} × World)
      → cancel_jobs env project_id reason at w ≡ some r
      → Single target_id w.work
      → Single target_id r.1.work
  unfolding cancel_jobs cancel_job
  cancelled-jobs env project_id reason at w r h q = ground (
    arith,
    count-update-le (runs_for target_id) (open_job project_id) (cancel_job reason at)
        (λ j p t. ground arith) w.work.jobs,
  )

  cancelled-tasks :
      (env : Env) (project_id reason : String) (at : ℕ) (w : World) (r : Unit {0} × World)
      → cancel_tasks env project_id reason at w ≡ some r
      → r.1.work.jobs ≡ w.work.jobs
  unfolding cancel_tasks
  cancelled-tasks env project_id reason at w r h = ground arith

  Keeps-unschedule : (env : Env) (ids : List String) → Keeps (Single target_id) (unschedule env ids)
  unfolding unschedule
  Keeps-unschedule env [] = Keeps-Reads _ (Reads-pure _)
  Keeps-unschedule env (id ∷ ids) = Keeps-bind _ _ _ (Keeps-Reads _ (Reads-query _ _)) (λ found.
      Keeps-bind _ _ _ (Keeps-Reads _ (Reads-required _ found)) (λ row.
        Keeps-bind _ _ _ (Keeps-elsewhere _ _ _ (save_target-work env (unscheduled row)))
          (λ _. Keeps-unschedule env ids)))

  Keeps-cancel_body :
      (env : Env) (project_id reason : String) (at : ℕ)
      → Keeps (Single target_id) (cancel_body env project_id reason at)
  unfolding cancel_body
  Keeps-cancel_body env project_id reason at =
      Keeps-bind _ _ _ (Keeps-Reads _ (Reads-boundary _)) (λ _.
        Keeps-bind _ _ _ (Keeps-Reads _ (Reads-query _ _)) (λ jobs.
          Keeps-bind _ _ _ (Keeps-jobs _ _ (cancelled-tasks env project_id reason at)) (λ _.
            Keeps-bind _ _ _ (Keeps-statement _ _ _ (cancelled-jobs env project_id reason at)) (λ _.
              Keeps-bind _ _ _ (Keeps-unschedule env (targets_of [] jobs))
                (λ _. Keeps-Reads _ (Reads-boundary _))))))

  Keeps-canceled_time : (env : Env) (at : ℕ) → Keeps (Single target_id) (canceled_time env at)
  unfolding canceled_time
  Keeps-canceled_time env at =
      Keeps-if _ _ _ _ (Keeps-Reads _ (Reads-reading env)) (Keeps-Reads _ (Reads-pure at))

  pub Keeps-cancel_project_runtime :
      (env : Env) (opt : CancelOptions) → Keeps (Single target_id) (cancel_project_runtime env opt)
  unfolding cancel_project_runtime
  Keeps-cancel_project_runtime env opt = Keeps-if _ _ _ _ (Keeps-Reads _ (Reads-fail _)) (
      Keeps-bind _ _ _ (Keeps-canceled_time env opt.canceled_at)
        (λ at. Keeps-transaction _ _ (Keeps-cancel_body env _ _ at)))

  claimed-work :
      (env : Env) (opt : ClaimOptions) (w : World) (r : ℕ × World)
      → claim_rows env opt w ≡ some r
      → r.1.work ≡ w.work
  unfolding claim_rows
  claimed-work env opt w r h = ground arith

  pub Keeps-claim_target :
      (env : Env) (opt : ClaimOptions) → Keeps (Single target_id) (claim_target env opt)
  unfolding claim_target
  Keeps-claim_target env opt =
      Keeps-bind _ _ _ (Keeps-elsewhere _ _ _ (claimed-work env opt)) (λ n.
        Keeps-bind _ _ _ (Keeps-Reads _ (Reads-boundary _)) (λ _. Keeps-Reads _ (Reads-pure _)))

  Keeps-release_row :
      (env : Env) (row : Option CrawlTarget) → Keeps (Single target_id) (release_row env row)
  Keeps-release_row env none = Keeps-Reads _ (Reads-pure _)
  Keeps-release_row env (some t) =
      Keeps-bind _ _ _ (Keeps-elsewhere _ _ _ (save_target-work env (unscheduled t)))
        (λ _. Keeps-Reads _ (Reads-pure _))

  pub Keeps-release_claim_target :
      (env : Env) (opt : ReleaseOptions) → Keeps (Single target_id) (release_claim_target env opt)
  unfolding release_claim_target
  Keeps-release_claim_target env opt = Keeps-if _ _ _ _ (Keeps-Reads _ (Reads-pure _)) (
      Keeps-if _ _ _ _ (Keeps-Reads _ (Reads-pure _))
        (Keeps-bind _ _ _ (Keeps-Reads _ (Reads-query _ _)) (Keeps-release_row env)))
