-- ===== src/Execution/Store/Dispatch/Single.antt =====
-- CreateScheduledJob: what it does to the table of jobs, and that a target has one running job at most.
use ingest_srv.Shared.{
  String, Bool, true, false, Option, none, some, ◌∷◌, ◌≡◌, inl, inr, refl, ap, ◌∙◌, sym, arith, any,
  is_blank, Bool-cases,
}
use ingest_srv.Model.{CrawlMode, ScheduledJob, JobStatus, Work}
use ingest_srv.Runtime.{
  World, Env, Outcome, ok, err, panic, Exec, ◌>>=◌, pure, fail, transaction, spent,
}
use ingest_srv.Runtime.Steps.{
  SameTables, SameTables-trans, Reads, Reads-pure, Reads-fail, Reads-query, Reads-reading,
  Reads-new_id, Post-read, statement_cases, query_value,
}
use ingest_srv.Execution.Options.{StoreErr, CreateJobOptions, create_failed}
use ingest_srv.Execution.Store.{required, boundary}
use ingest_srv.Execution.Store.Dispatch.{
  job_row, insert_job, runs_for, none_runs, insert_new, guarded_insert, with_mode,
  create_scheduled_job,
}

pub Reads-boundary {ℓ} : {E : Type ℓ} (e : E) → Reads (boundary e)
unfolding boundary
Reads-boundary e = Reads-query e _

pub Reads-required {ℓ κ} : {E : Type ℓ} {A : Type κ} (e : E) (o : Option A) → Reads (required e o)
Reads-required e none = Reads-fail e
Reads-required e (some a) = Reads-pure a

abbrev with_job : Work → ScheduledJob → Work
with_job k job = record k { jobs = job ∷ k.jobs }

inserted :
    (row : ScheduledJob) (w : World) {r : ScheduledJob × World}
    → insert_job row w ≡ some r
    → (r.0 ≡ row) × (r.1.work ≡ with_job w.work row)
unfolding insert_job
inserted row w {r} h = (ground arith, ground arith)

module _ (env : Env) (opt : CreateJobOptions) where
  -- How CreateScheduledJob ends.
  pub data Creates (w : World) (r : Outcome StoreErr ScheduledJob × World) : Type 0 where
    refused : (e : StoreErr) → r.0 ≡ err e → r.1.work ≡ w.work → Creates w r
    no_mode : opt.source.crawl_mode ≡ none → r.0 ≡ panic → r.1.work ≡ w.work → Creates w r
    created :
        (job : ScheduledJob)
        → r.0 ≡ ok job
        → job.status ≡ JobStatus.running
        → job.target_id ≡ opt.target.id
        → (is_blank opt.target.id ≡ false → any (runs_for opt.target.id) w.work.jobs ≡ false)
        → r.1.work ≡ with_job w.work job
        → Creates w r

  -- The body of the transaction, before a rollback.
  data Body (w : World) (r : Outcome StoreErr ScheduledJob × World) : Type 0 where
    fails : (e : StoreErr) → r.0 ≡ err e → Body w r
    adds :
        (job : ScheduledJob)
        → r.0 ≡ ok job
        → job.status ≡ JobStatus.running
        → job.target_id ≡ opt.target.id
        → any (runs_for opt.target.id) w.work.jobs ≡ false
        → r.1.work ≡ with_job w.work job
        → Body w r

  rolled :
      (w v : World) (m : Exec StoreErr ScheduledJob)
      → v.work ≡ w.work
      → Body v (m v)
      → Creates w (transaction m v)
  unfolding transaction
  rolled w v m same (fails e answer) = rw answer (refused e refl same)
  rolled w v m same (adds job answer status target free work) = rw answer (
      created job refl status target
        (λ b. ap (λ k. any (runs_for opt.target.id) k.jobs) (sym same) ∙ free)
        (work ∙ ap (λ k. with_job k job) same))

  -- One insert: it fails and changes no work, or adds a running job of the target.
  data Inserts (w : World) (r : Outcome StoreErr ScheduledJob × World) : Type 0 where
    rejected : (e : StoreErr) → r.0 ≡ err e → r.1.work ≡ w.work → Inserts w r
    accepted :
        (job : ScheduledJob)
        → r.0 ≡ ok job
        → job.status ≡ JobStatus.running
        → job.target_id ≡ opt.target.id
        → r.1.work ≡ with_job w.work job
        → Inserts w r

  insert_new-Inserts :
      (mode : CrawlMode) (id : String) (w : World) → Inserts w (insert_new env opt mode id w)
  unfolding job_row
  insert_new-Inserts mode id w =
      Post-read (Inserts w) _ w (Reads-reading env) (λ e v same. rejected e refl same.work)
        (λ now v same _.
          elim (statement_cases create_failed (insert_job (job_row opt mode id now)) v) [
            | inl down ↦ rw down (rejected create_failed refl same.work)
            | inr (r, took, runs) ↦
                let (row, work) = inserted (job_row opt mode id now) (spent v) took in
                rw runs (
                  accepted r.0 refl (ap (λ j. j.status) row) (ap (λ j. j.target_id) row) (
                    work
                    ∙ ap (λ k. with_job k (job_row opt mode id now)) same.work
                    ∙ ap (with_job w.work) (sym row)))
          ])

  committed :
      (w v : World) (m : Exec StoreErr ScheduledJob)
      → v.work ≡ w.work
      → any (runs_for opt.target.id) w.work.jobs ≡ false
      → Inserts v (m v)
      → Body w ((m >>= λ job. boundary create_failed >>= λ _. pure job) v)
  unfolding ◌>>=◌ pure
  committed w v m same free (rejected e answer work) = rw answer (fails e refl)
  committed w v m same free (accepted job answer status target work) = rw answer (
      Post-read (Body w) (λ _. pure job) (m v).1 (Reads-boundary create_failed)
        (λ e u _. fails e refl)
        (λ _ u kept _.
          adds job refl status target free (kept.work ∙ work ∙ ap (λ k. with_job k job) same)))

  if_free :
      (mode : CrawlMode) (id : String) (w v : World) (exists : Bool)
      → any (runs_for opt.target.id) w.work.jobs ≡ exists
      → SameTables w v
      → Body w (
          (none_runs exists >>= λ _.
          insert_new env opt mode id >>= λ job. boundary create_failed >>= λ _. pure job)
            v)
  unfolding ◌>>=◌ fail pure
  if_free mode id w v true is same = fails _ refl
  if_free mode id w v false is same =
      committed w v (insert_new env opt mode id) same.work is (insert_new-Inserts mode id v)

  guarded-Body :
      (mode : CrawlMode) (id : String) (w : World) → Body w (guarded_insert env opt mode id w)
  guarded-Body mode id w =
      Post-read (Body w) _ w (Reads-boundary create_failed) (λ e v _. fails e refl)
        (λ _ v s1 _.
          Post-read (Body w) _ v (Reads-query create_failed _) (λ e u _. fails e refl)
            (λ locked u s2 _.
              Post-read (Body w) _ u (Reads-required _ locked) (λ e x _. fails e refl)
                (λ _ x s3 _.
                  Post-read (Body w) _ x (Reads-query create_failed _) (λ e y _. fails e refl)
                    (λ exists y s4 is.
                      let same = SameTables-trans s1 (SameTables-trans s2 s3) in
                      if_free mode id w y exists
                        (ap (λ k. any (runs_for opt.target.id) k.jobs) (sym same.work)
                          ∙ query_value create_failed _ x is)
                        (SameTables-trans same s4)))))

  unguarded :
      (w v : World) (r : Outcome StoreErr ScheduledJob × World)
      → v.work ≡ w.work
      → is_blank opt.target.id ≡ true
      → Inserts v r
      → Creates w r
  unguarded w v r same blank (rejected e answer work) = refused e answer (work ∙ same)
  unguarded w v r same blank (accepted job answer status target work) =
      created job answer status target (λ given. cc) (work ∙ ap (λ k. with_job k job) same)

  by_mode :
      (id : String) (w v : World)
      → SameTables w v
      → (mode : Option CrawlMode) → opt.source.crawl_mode ≡ mode
      → Creates w (with_mode env opt mode id v)
  by_mode id w v same none is = no_mode is refl same.work
  by_mode id w v same (some mode) is = elim (Bool-cases (is_blank opt.target.id)) [
    | inl blank ↦ rw blank (unguarded w v _ same.work blank (insert_new-Inserts mode id v))
    | inr given ↦
        rw given (rolled w v (guarded_insert env opt mode id) same.work (guarded-Body mode id v))
  ]

  -- CreateScheduledJob fails and changes no work, or it panics and changes none, because the data
  -- source has no crawl mode, or it adds one running job of the target to the jobs; then none was
  -- running for that target.
  pub create_scheduled_job-Creates : (w : World) → Creates w (create_scheduled_job env opt w)
  unfolding create_scheduled_job
  create_scheduled_job-Creates w =
      Post-read (Creates w) _ w (Reads-new_id env) (λ e v same. refused e refl same.work)
        (λ id v same _. by_mode id w v same opt.source.crawl_mode refl)
