-- ===== src/Execution/Store/Cancel/Cancels.antt =====
-- CancelProjectRuntime: which jobs and tasks it cancels, and that a failure cancels none.
use ingest_srv.Shared.{
  ℕ, String, false, some, List, [], ◌∷◌, ◌≡◌, ◌==◌, inl, inr, refl, ap, ◌∙◌, arith, count,
  update_where, count-update_all, trim_space, Bool-cases, nat_eq,
}
use ingest_srv.Model.{JobStatus, CrawlTarget, ScheduledJob, ExternalTask, Work}
use ingest_srv.Runtime.{World, Env, Outcome, ok, err, Exec, spent, transaction, fail, ◌>>=◌}
use ingest_srv.Runtime.Steps.{
  SameTables-trans, Reads, Reads-pure, Reads-query, Reads-reading, Post-read, Post-bind,
  Post-statement, Post, query_cases,
}
use ingest_srv.Runtime.Keeps.{Keeps, Keeps-Reads, Keeps-bind, Keeps-statement}
use ingest_srv.Runtime.Calm.{Calm, Calm-Reads, Calm-bind, Calm-statement}
use ingest_srv.Repository.Targets as Targets
use ingest_srv.Execution.Options.{StoreErr, cancel_failed, CancelOptions}
use ingest_srv.Execution.Store.{boundary}
use ingest_srv.Execution.Store.Dispatch.Single.{Reads-boundary, Reads-required}
use ingest_srv.Execution.Store.Cancel.{
  open_job, open_task, cancel_job, cancel_task, cancel_jobs, cancel_tasks, cancel_body, unschedule,
  unscheduled, canceled_time, targets_of, default_reason, cancel_project_runtime,
}

-- What becomes of a job that is cancelled.
abbrev stopped_job : String → ℕ → ScheduledJob → ScheduledJob
stopped_job reason at j = record j {
  status = JobStatus.cancelled;
  completed_at = some at;
  error_message = reason;
}

-- What becomes of a task that is cancelled.
abbrev stopped_task : String → ℕ → ExternalTask → ExternalTask
stopped_task reason at t = record t {
  status = JobStatus.cancelled;
  completed_at = some at;
  error_message = reason;
}

abbrev cancelled_work : String → String → ℕ → Work → Work
cancelled_work project_id reason at k = record k {
  jobs = update_where (open_job project_id) (stopped_job reason at) k.jobs;
  tasks = update_where (open_task project_id) (stopped_task reason at) k.tasks;
}

-- How CancelProjectRuntime ends.
pub data Cancels (project_id : String) (w : World) (r : Outcome StoreErr (Unit {0}) × World)
    : Type 0 where
  kept :
      (e : StoreErr)
      → r.0 ≡ err e
      → r.1.work ≡ w.work
      → r.1.targets ≡ w.targets
      → Cancels project_id w r
  cancelled :
      (reason : String) (at : ℕ)
      → (reason == "") ≡ false
      → r.0 ≡ ok tt
      → r.1.work ≡ cancelled_work project_id reason at w.work
      → count (open_job project_id) r.1.work.jobs ≡ 0
      → count (open_task project_id) r.1.work.tasks ≡ 0
      → Cancels project_id w r

-- The body of the transaction, before a rollback.
data Body (project_id : String) (w : World) (r : Outcome StoreErr (Unit {0}) × World) : Type 0 where
  fails : (e : StoreErr) → r.0 ≡ err e → Body project_id w r
  ends :
      (reason : String) (at : ℕ)
      → (reason == "") ≡ false
      → r.0 ≡ ok tt
      → r.1.work ≡ cancelled_work project_id reason at w.work
      → Body project_id w r

save_target-work :
    (env : Env) (t : CrawlTarget) (w : World) (r : CrawlTarget × World)
    → Targets.save env t w ≡ some r
    → r.1.work ≡ w.work
unfolding Targets.save
save_target-work env t w r h = ground arith

jobs_done :
    (project_id reason : String) (at : ℕ) (jobs : List ScheduledJob)
    → count (open_job project_id) (update_where (open_job project_id) (stopped_job reason at) jobs)
      ≡ 0
jobs_done project_id reason at jobs =
    count-update_all (open_job project_id) (open_job project_id) (stopped_job reason at) (λ j h. h)
      (λ j. ground arith) jobs

tasks_done :
    (project_id reason : String) (at : ℕ) (tasks : List ExternalTask)
    → count
        (open_task project_id)
        (update_where (open_task project_id) (stopped_task reason at) tasks)
      ≡ 0
tasks_done project_id reason at tasks =
    count-update_all (open_task project_id) (open_task project_id) (stopped_task reason at)
      (λ t h. h) (λ t. ground arith) tasks

committed :
    (project_id reason : String) (at : ℕ) (w v : World)
    → (reason == "") ≡ false
    → v.work ≡ cancelled_work project_id reason at w.work
    → Body project_id w (boundary cancel_failed v)
unfolding boundary
committed project_id reason at w v given work =
    elim (query_cases {A = Unit {0}} cancel_failed (λ u. tt) v) [
      | inl down ↦ rw down (fails cancel_failed refl)
      | inr runs ↦ rw runs (ends reason at given refl work)
    ]

rolled :
    (project_id : String) (w v : World) (m : Exec StoreErr (Unit {0}))
    → v.work ≡ w.work
    → v.targets ≡ w.targets
    → Body project_id v (m v)
    → Cancels project_id w (transaction m v)
unfolding transaction
rolled project_id w v m same rows (fails e answer) = rw answer (kept e refl same rows)
rolled project_id w v m same rows (ends reason at given answer work) = rw answer (
    cancelled reason at given refl (work ∙ ap (cancelled_work project_id reason at) same)
      (ap (λ (k : Work). count (open_job project_id) k.jobs) work
        ∙ jobs_done project_id reason at v.work.jobs)
      (ap (λ (k : Work). count (open_task project_id) k.tasks) work
        ∙ tasks_done project_id reason at v.work.tasks))

Reads-canceled_time : (env : Env) (at : ℕ) → Reads (canceled_time env at)
unfolding canceled_time
Reads-canceled_time env at = elim (Bool-cases (nat_eq at 0)) [
  | inl zero_time ↦ rw zero_time (Reads-reading env)
  | inr given ↦ rw given (Reads-pure at)
]

default_reason_given : (reason : String) → (default_reason reason == "") ≡ false
unfolding default_reason
default_reason_given reason = elim (Bool-cases (trim_space reason == "")) [
  | inl blank ↦ rw blank refl
  | inr given ↦ rw given given
]

module _ (env : Env) where
  Keeps-unschedule : (k : Work) (ids : List String) → Keeps (λ v. v ≡ k) (unschedule env ids)
  unfolding unschedule
  Keeps-unschedule k [] = Keeps-Reads _ (Reads-pure _)
  Keeps-unschedule k (id ∷ ids) = Keeps-bind _ _ _ (Keeps-Reads _ (Reads-query _ _)) (λ found.
      Keeps-bind _ _ _ (Keeps-Reads _ (Reads-required _ found)) (λ row.
        Keeps-bind _ _ _
          (Keeps-statement _ _ _ (λ w r h q. save_target-work env (unscheduled row) w r h ∙ q))
          (λ _. Keeps-unschedule k ids)))

  Calm-unschedule : (ids : List String) → Calm (unschedule env ids)
  unfolding unschedule
  Calm-unschedule [] = Calm-Reads (Reads-pure _)
  Calm-unschedule (id ∷ ids) = Calm-bind _ _ (Calm-Reads (Reads-query _ _)) (λ found.
      Calm-bind _ _ (Calm-Reads (Reads-required _ found))
        (λ row. Calm-bind _ _ (Calm-statement _ _) (λ _. Calm-unschedule ids)))

  tasks_cancelled :
      (project_id reason : String) (at : ℕ) (w : World) (r : Unit {0} × World)
      → cancel_tasks env project_id reason at w ≡ some r
      → r.1.work ≡ record w.work {
        tasks = update_where (open_task project_id) (stopped_task reason at) w.work.tasks;
      }
  unfolding cancel_tasks cancel_task
  tasks_cancelled project_id reason at w r h = ground arith

  jobs_cancelled :
      (project_id reason : String) (at : ℕ) (w : World) (r : Unit {0} × World)
      → cancel_jobs env project_id reason at w ≡ some r
      → r.1.work ≡ record w.work {
        jobs = update_where (open_job project_id) (stopped_job reason at) w.work.jobs;
      }
  unfolding cancel_jobs cancel_job
  jobs_cancelled project_id reason at w r h = ground arith

  after_jobs :
      (project_id reason : String) (at : ℕ) (w v : World) (ids : List String)
      → (reason == "") ≡ false
      → v.work ≡ cancelled_work project_id reason at w.work
      → Post (Body project_id w) ((unschedule env ids >>= λ _. boundary cancel_failed) v)
  after_jobs project_id reason at w v ids given work =
      Post-bind (Body project_id w) (unschedule env ids) _ v (λ e _. fails e refl)
        (λ p. absurd ((Calm-unschedule ids).calm v p))
        (λ _ _.
          committed project_id reason at w _ given
            ((Keeps-unschedule (cancelled_work project_id reason at w.work) ids).kept v work))

  cancel_body-Body :
      (project_id reason : String) (at : ℕ) (w : World)
      → (reason == "") ≡ false
      → Body project_id w (cancel_body env project_id reason at w)
  unfolding cancel_body
  cancel_body-Body project_id reason at w given =
      Post-read (Body project_id w) _ w (Reads-boundary cancel_failed) (λ e v _. fails e refl)
        (λ _ v s1 _.
          Post-read (Body project_id w) _ v (Reads-query cancel_failed _) (λ e u _. fails e refl)
            (λ jobs u s2 _.
              Post-statement (Body project_id w) cancel_failed _ _ u (fails cancel_failed refl)
                (λ rt took.
                  Post-statement (Body project_id w) cancel_failed _ _ rt.1
                    (fails cancel_failed refl)
                    (λ rj took'. after_jobs project_id reason at w rj.1 (targets_of [] jobs) given (
                      jobs_cancelled project_id reason at (spent rt.1) rj took'
                      ∙ ap
                          (λ (k : Work). record k {
                            jobs =
                                update_where (open_job project_id) (stopped_job reason at) k.jobs;
                          })
                          (tasks_cancelled project_id reason at (spent u) rt took
                            ∙ ap
                                (λ (k : Work). record k {
                                  tasks =
                                      update_where (open_task project_id) (stopped_task reason at)
                                        k.tasks;
                                })
                                (SameTables-trans s1 s2).work))))))

  -- CancelProjectRuntime never panics. It fails and changes no job, task, batch or target; or it
  -- succeeds, has changed exactly the PENDING, RUNNING and PARTIAL jobs and the PENDING and RUNNING
  -- tasks of the project, which now are CANCELLED with a time and a nonempty
  -- reason, and leaves none of these.
  pub cancel_project_runtime-Cancels :
      (opt : CancelOptions) (w : World)
      → Cancels (trim_space opt.project_id) w (cancel_project_runtime env opt w)
  unfolding cancel_project_runtime fail
  cancel_project_runtime-Cancels opt w = elim (Bool-cases (trim_space opt.project_id == "")) [
    | inl blank ↦ rw (cancel_project_runtime, blank) (kept cancel_failed refl refl refl)
    | inr given ↦
        rw (cancel_project_runtime, given)
          (Post-read (Cancels (trim_space opt.project_id) w) _ w
            (Reads-canceled_time env opt.canceled_at)
            (λ e v same. kept e refl same.work same.targets)
            (λ at v same _. rolled (trim_space opt.project_id) w v _ same.work same.targets (
              cancel_body-Body (trim_space opt.project_id) (default_reason opt.reason) at v
                (default_reason_given opt.reason))))
  ]
