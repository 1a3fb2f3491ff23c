-- ===== src/Execution/Complete/Atomic.antt =====
-- HandleCompletion: an answer that ends in an error changes nothing, so it can be delivered again.
use ingest_srv.Shared.{
  ℕ, zero, suc, String, Bool, true, false, Option, none, some, List, [], ◌∷◌, ◌≡◌, ◌⊎◌,
  if◌then◌else◌, inl, inr, refl, ◌∙◌, ℤ, Bool-cases,
}
use ingest_srv.Model.{ExternalTask, RawBatch, ScheduledJob}
use ingest_srv.Runtime.{World, Env, Outcome, ok, err, panic, Exec, transaction, wrap, pure, fail}
use ingest_srv.Runtime.Steps.{
  SameTables, SameTables-refl, SameTables-trans, Reads, Reads-pure, Reads-query, Reads-reading,
  Reads-check, Reads-wrap, Reads-bind, Reads-call, Reads-fail, Reads-new_id, Post-read,
  Post-attempt,
}
use ingest_srv.Runtime.Calm.{Calm, Calm-Reads, Calm-bind, Calm-statement, Calm-transaction, Calm-if}
use ingest_srv.Execution.Options.{StoreErr, SuccessOptions, batch_already_exists}
use ingest_srv.Execution.Services.{Services, Storage, Parser, Reply, answer, failure}
use ingest_srv.Execution.Types.{Err, CompletionInput, of_store}
use ingest_srv.Execution.Store.Dispatch.Single.{Reads-boundary, Reads-required}
use ingest_srv.Execution.Store.Status.{
  recompute_job_status, recompute_row, update_task_success, update_target_success,
  update_source_success,
}
use ingest_srv.Execution.Store.Completion.{
  complete_task_error, complete_task_success, success_body, record_success, inserted_or_duplicate,
}
use ingest_srv.Execution.Complete.{
  Kind, success, error, unknown, is_cancelled, has_failed, handle_kind, unless_cancelled,
  handle_completion, if_new, verified, recorded, parse_with, verify_minio_object, verify_with,
  verify_from, verify_once, or_again, stat, completion_error, error_options,
}
use ingest_srv.Execution.Complete.Delivery.{Reads-get_completion_context, Reads-has_raw_batch}

-- What a rolled back transaction leaves.
pub record Untouched (w v : World) : Type 0 where
  pub work : v.work ≡ w.work
  pub sources : v.sources ≡ w.sources
  pub targets : v.targets ≡ w.targets

of_same : {w v : World} → SameTables w v → Untouched w v
of_same s = record { work = s.work; sources = s.sources; targets = s.targets }

Untouched-trans : {u v w : World} → Untouched u v → Untouched v w → Untouched u w
Untouched-trans p q = record {
  work = q.work ∙ p.work;
  sources = q.sources ∙ p.sources;
  targets = q.targets ∙ p.targets;
}

ended {ℓ κ} :
    {E : Type ℓ} {A : Type κ} (o : Outcome E A) (w v : World) {e : E}
    → (transaction {A = A} (λ u. (o, v)) w).0 ≡ err e
    → Untouched w (transaction {A = A} (λ u. (o, v)) w).1
unfolding transaction
ended (ok a) w v h = cc
ended (err e) w v h = record { work = refl; sources = refl; targets = refl }
ended panic w v h = cc

transaction-Untouched {ℓ κ} :
    {E : Type ℓ} {A : Type κ} (m : Exec E A) (w : World) {e : E}
    → (transaction m w).0 ≡ err e
    → Untouched w (transaction m w).1
unfolding transaction
transaction-Untouched m w h = ended (m w).0 w (m w).1 h

-- After an error the jobs, tasks, batches, sources and targets are as they were.
abbrev Atomic {ℓ κ} : {E : Type ℓ} {A : Type κ} → World → Outcome E A × World → Type (ℓ ⊔ κ)
Atomic {E} w r = (e : E) → r.0 ≡ err e → Untouched w r.1

wrapped {ℓ κ μ} :
    {E : Type ℓ} {F : Type κ} {A : Type μ} (f : E → F) (o : Outcome E A) (v : World) {e' : F}
    → (wrap f (λ u. (o, v)) v).0 ≡ err e'
    → (e : E) × (o ≡ err e)
unfolding wrap
wrapped f (ok a) v h = cc
wrapped f (err e) v h = (e, refl)
wrapped f panic v h = cc

wrap-Atomic {ℓ κ μ} :
    {E : Type ℓ} {F : Type κ} {A : Type μ} (f : E → F) (m : Exec E A) (w : World)
    → Atomic w (m w)
    → Atomic w (wrap f m w)
unfolding wrap
wrap-Atomic f m w h e' is = let (e, failed) = wrapped f (m w).0 (m w).1 is in h e failed

abbrev untouched_later {ℓ κ} :
    {E : Type ℓ} {A : Type κ} (w v : World) (r : Outcome E A × World)
    → SameTables w v
    → Atomic v r
    → Atomic w r
untouched_later w v r same h e is = Untouched-trans (of_same same) (h e is)

module _ (sv : Services) where
  Reads-stat :
      (st : Storage) (bucket path : String) (r : Reply Bool) → Reads (stat sv st bucket path r)
  Reads-stat st bucket path (answer true) = Reads-call _
  Reads-stat st bucket path (answer false) = Reads-pure _
  Reads-stat st bucket path (failure e) = Reads-pure _

  Reads-verify_once : (st : Storage) (bucket path : String) → Reads (verify_once sv st bucket path)
  unfolding verify_once
  Reads-verify_once st bucket path = Reads-bind _ _ (Reads-call _) (Reads-stat st bucket path)

  Reads-or_again :
      (again : String → Exec Err (Reply ℤ)) (r : Reply ℤ)
      → ((e : String) → Reads (again e))
      → Reads (or_again sv again r)
  Reads-or_again again (answer size) h = Reads-pure _
  Reads-or_again again (failure e) h = h e

  Reads-verify_from :
      (n : ℕ) (last : String) (st : Storage) (bucket path : String)
      → Reads (verify_from sv n last st bucket path)
  unfolding verify_from
  Reads-verify_from zero last st bucket path = Reads-pure _
  Reads-verify_from (suc n) last st bucket path =
      Reads-bind _ _ (Reads-verify_once st bucket path) (λ r.
        Reads-or_again (λ e. verify_from sv n e st bucket path) r
          (λ e. Reads-verify_from n e st bucket path))

  Reads-verify_with :
      (st : Option Storage) (bucket path : String) → Reads (verify_with sv st bucket path)
  Reads-verify_with none bucket path = Reads-pure _
  Reads-verify_with (some st) bucket path = Reads-verify_from 3 _ st bucket path

  pub Reads-verify_minio_object :
      (bucket path : String) → Reads (verify_minio_object sv bucket path)
  unfolding verify_minio_object
  Reads-verify_minio_object bucket path = Reads-verify_with sv.storage bucket path

Calm-recompute : (sv : Services) (id : String) (at : ℕ) → Calm (recompute_job_status sv id at)
unfolding recompute_job_status
Calm-recompute sv id at = Calm-if _ _ _ (Calm-Reads (Reads-pure _)) (
    Calm-bind _ _ (Calm-Reads (Reads-query _ _)) (λ found.
      Calm-bind _ _ (Calm-Reads (Reads-required _ found))
        (λ job. Calm-bind _ _ (Calm-Reads (Reads-query _ _)) (λ tasks. Calm-row tasks job))))
  where
    Calm-row :
        (tasks : List ExternalTask) (job : ScheduledJob) → Calm (recompute_row sv tasks at job)
    Calm-row [] job = Calm-Reads (Reads-pure _)
    Calm-row (t ∷ ts) job = Calm-statement _ _

Calm-task_success : (id : String) (at : ℕ) → Calm (update_task_success id at)
unfolding update_task_success
Calm-task_success id at = Calm-if _ _ _ (Calm-Reads (Reads-pure _)) (
    Calm-bind _ _ (Calm-Reads (Reads-query _ _))
      (λ found. Calm-bind _ _ (Calm-Reads (Reads-required _ found)) (λ row. Calm-statement _ _)))

Calm-target_success : (env : Env) (id : String) (at : ℕ) → Calm (update_target_success env id at)
unfolding update_target_success
Calm-target_success env id at = Calm-if _ _ _ (Calm-Reads (Reads-pure _)) (
    Calm-bind _ _ (Calm-Reads (Reads-query _ _)) (λ found.
      Calm-bind _ _ (Calm-Reads (Reads-required _ found))
        (λ row. Calm-bind _ _ (Calm-statement _ _) (λ _. Calm-Reads (Reads-pure _)))))

Calm-source_success : (env : Env) (id : String) (at : ℕ) → Calm (update_source_success env id at)
unfolding update_source_success
Calm-source_success env id at = Calm-bind _ _ (Calm-Reads (Reads-query _ _)) (λ found.
    Calm-bind _ _ (Calm-Reads (Reads-required _ found))
      (λ row. Calm-bind _ _ (Calm-statement _ _) (λ _. Calm-Reads (Reads-pure _))))

Calm-inserted : (b : Bool) → Calm (inserted_or_duplicate b)
Calm-inserted true = Calm-Reads (Reads-pure _)
Calm-inserted false = Calm-Reads (Reads-fail _)

pub Calm-complete_task_success :
    (sv : Services) (opt : SuccessOptions) → Calm (complete_task_success sv opt)
unfolding complete_task_success success_body
Calm-complete_task_success sv opt = Calm-transaction _ (
    Calm-bind _ _ (Calm-Reads (Reads-boundary _)) (λ _.
      Calm-bind _ _ (Calm-Reads (Reads-new_id sv.base)) (λ id.
        Calm-bind _ _ (Calm-Reads (Reads-reading sv.base)) (λ now.
          Calm-bind _ _ (Calm-statement _ _) (λ b. Calm-bind _ _ (Calm-inserted b) (λ _.
            Calm-bind _ _ Calm-record (λ _.
              Calm-bind _ _ (Calm-Reads (Reads-boundary _)) (λ _. Calm-Reads (Reads-pure _)))))))))
  where
    Calm-record : Calm (record_success sv opt)
    Calm-record = Calm-bind _ _ (Calm-task_success _ _) (λ _.
        Calm-bind _ _ (Calm-recompute sv _ _) (λ _.
          Calm-bind _ _ (Calm-target_success sv.base _ _) (λ _. Calm-source_success sv.base _ _)))

no_error :
    (b : Bool) (f : World → World) (v : World) {e : Err}
    → let m : Exec Err (Unit {0}) = if b then (λ w. (ok tt, f w)) else pure tt in
      (m v).0 ≡ err e → ⊥
unfolding pure
no_error true f v h = cc
no_error false f v h = cc

module _ (sv : Services) (input : CompletionInput) where
  parse-Atomic :
      (p : Option Parser) (batch : RawBatch) (task : ExternalTask) (at : ℕ) (w v : World)
      → Atomic w (parse_with sv p batch task at v)
  unfolding pure
  parse-Atomic none batch task at w v e is = cc
  parse-Atomic (some p) batch task at w v e is = absurd (
      no_error (p.supports_parse task.platform task.task_type) (p.parse_and_store batch task at) v
        is)

  recorded-Atomic :
      (task : ExternalTask) (at : ℕ) (w v : World) (r : RawBatch ⊎ StoreErr)
      → ((e : StoreErr) → r ≡ inr e → Untouched w v)
      → Atomic w (recorded sv task at r v)
  unfolding pure fail
  recorded-Atomic task at w v (inl batch) h = parse-Atomic sv.parser batch task at w v
  recorded-Atomic task at w v (inr batch_already_exists) h = λ e is. cc
  recorded-Atomic task at w v (inr x) h = λ e is. h x refl

  complete_error-Atomic :
      (task : ExternalTask) (message : String) (at : ℕ) (w : World)
      → Atomic w (wrap of_store (complete_task_error sv (error_options sv task message at)) w)
  unfolding complete_task_error
  complete_error-Atomic task message at w =
      wrap-Atomic of_store _ w (λ e is. transaction-Untouched _ w is)

  success_failed :
      (opt : SuccessOptions) (w : World) {e : StoreErr}
      → (complete_task_success sv opt w).0 ≡ err e
      → Untouched w (complete_task_success sv opt w).1
  unfolding complete_task_success
  success_failed opt w is = transaction-Untouched _ w is

  verified-Atomic :
      (task : ExternalTask) (at : ℕ) (w : World) (r : Reply ℤ)
      → ((opt : SuccessOptions) → Calm (complete_task_success sv opt))
      → Atomic w (verified sv input task at r w)
  verified-Atomic task at w (failure message) calm = complete_error-Atomic task message at w
  verified-Atomic task at w (answer size) calm =
      Post-attempt (Atomic w) _ _ w ((calm _).calm w)
        (λ batch is. recorded-Atomic task at w _ (inl batch) (λ e p. cc))
        (λ e is. recorded-Atomic task at w _ (inr e) (λ _ p. success_failed _ w is))

  if_new-Atomic :
      (task : ExternalTask) (at : ℕ) (w : World) (b : Bool)
      → ((opt : SuccessOptions) → Calm (complete_task_success sv opt))
      → Atomic w (if_new sv input task at b w)
  unfolding pure
  if_new-Atomic task at w true calm = λ e is. cc
  if_new-Atomic task at w false calm =
      Post-read (Atomic w) _ w (Reads-verify_minio_object sv _ _) (λ e v same _ _. of_same same)
        (λ r v same _. untouched_later w v _ same (verified-Atomic task at v r calm))

  handle_kind-Atomic :
      (k : Kind) (task : ExternalTask) (at : ℕ) (w : World)
      → Atomic w (handle_kind sv k input task at w)
  unfolding handle_kind fail pure
  handle_kind-Atomic unknown task at w = λ e is. of_same (SameTables-refl w)
  handle_kind-Atomic error task at w = elim (Bool-cases (has_failed task)) [
    | inl twice ↦ rw twice (λ e is. cc)
    | inr once ↦ rw once (complete_error-Atomic task _ at w)
  ]
  handle_kind-Atomic success task at w =
      Post-read (Atomic w) _ w
        (Reads-wrap of_store _ (Reads-has_raw_batch task.source_id input.batch_id))
        (λ e v same _ _. of_same same)
        (λ b v same _.
          untouched_later w v _ same (if_new-Atomic task at v b (Calm-complete_task_success sv)))

  unless_cancelled-Atomic :
      (task : ExternalTask) (w : World) → Atomic w (unless_cancelled sv input task w)
  unfolding pure
  unless_cancelled-Atomic task w = elim (Bool-cases (is_cancelled task)) [
    | inl cancelled ↦ rw cancelled (λ e is. cc)
    | inr live ↦ rw live (
        Post-read (Atomic w) _ w (Reads-reading sv.base) (λ e v same _ _. of_same same)
          (λ now v same _. untouched_later w v _ same (handle_kind-Atomic _ task _ v)))
  ]

  -- Where HandleCompletion returns an error, the jobs, tasks, batches, data sources and targets are as
  -- they were.
  pub handle_completion-Atomic : (w : World) → Atomic w (handle_completion sv input w)
  unfolding handle_completion
  handle_completion-Atomic w =
      Post-read (Atomic w) _ w (Reads-check _) (λ e v same _ _. of_same same)
        (λ _ v same _.
          Post-read (Atomic w) _ v
            (Reads-wrap completion_error _ (Reads-get_completion_context input.task_id))
            (λ e u s _ _. of_same (SameTables-trans same s))
            (λ task u s _.
              untouched_later w u _ (SameTables-trans same s) (unless_cancelled-Atomic task u)))
