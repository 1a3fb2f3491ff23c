-- ===== src/Execution/Complete/Delivery.antt =====
-- HandleCompletion under redelivery: which completions it ignores.
use ingest_srv.Shared.{
  ℕ, String, Bool, true, false, Option, none, some, ◌≡◌, ◌==◌, ◌⊎◌, inl, inr, refl, ap, ◌∙◌, sym,
  subst, any, first, trim_space, Bool-cases,
}
use ingest_srv.Model.{ExternalTask}
use ingest_srv.Runtime.{World, ok, pure, fail}
use ingest_srv.Runtime.Steps.{
  SameTables, SameTables-trans, Reads, Reads-pure, Reads-query, Reads-reading, Reads-check,
  Reads-wrap, Reads-bind, Post-read, query_value, wrap_value,
}
use ingest_srv.Execution.Options.{get_completion_failed}
use ingest_srv.Execution.Services.{Services}
use ingest_srv.Execution.Types.{CompletionInput, of_store}
use ingest_srv.Execution.Store.{required}
use ingest_srv.Execution.Store.Dispatch.Single.{Reads-boundary, Reads-required}
use ingest_srv.Execution.Store.Completion.{get_completion_context, has_raw_batch, same_batch}
use ingest_srv.Execution.Complete.{
  Kind, success, error, unknown, kind_of, is_cancelled, has_failed, handle_kind, unless_cancelled,
  handle_completion, if_new, completion_error,
}

abbrev pub find_by_task_id : String → World → Option ExternalTask
find_by_task_id id w = first (λ t. t.task_id == trim_space id) w.work.tasks

pub Reads-get_completion_context : (id : String) → Reads (get_completion_context id)
unfolding get_completion_context
Reads-get_completion_context id = Reads-bind _ _ (Reads-query _ _) (λ found.
    Reads-bind _ _ (Reads-required _ found) (λ task. Reads-bind _ _ (Reads-boundary _) (λ _.
      Reads-bind _ _ (Reads-boundary _)
        (λ _. Reads-bind _ _ (Reads-boundary _) (λ _. Reads-pure _)))))

pub Reads-has_raw_batch : (source_id batch_id : String) → Reads (has_raw_batch source_id batch_id)
unfolding has_raw_batch
Reads-has_raw_batch source_id batch_id = Reads-query _ _

required_value {ℓ κ} :
    {E : Type ℓ} {A : Type κ} (e : E) (o : Option A) (w : World) {a : A}
    → (required e o w).0 ≡ ok a
    → o ≡ some a
unfolding fail pure
required_value e none w h = cc
required_value e (some b) w h = cc

-- The context that is loaded is that of the first task with the identifier.
context_value :
    (id : String) (w : World) {t : ExternalTask}
    → (get_completion_context id w).0 ≡ ok t
    → find_by_task_id id w ≡ some t
unfolding get_completion_context pure
context_value id w {t} =
    Post-read (λ r. r.0 ≡ ok t → find_by_task_id id w ≡ some t) _ w (Reads-query _ _)
      (λ e v _ h. cc)
      (λ found v _ is.
        Post-read (λ r. r.0 ≡ ok t → find_by_task_id id w ≡ some t) _ v (Reads-required _ found)
          (λ e u _ h. cc)
          (λ task u _ was.
            Post-read (λ r. r.0 ≡ ok t → find_by_task_id id w ≡ some t) _ u (Reads-boundary _)
              (λ e x _ h. cc)
              (λ _ x _ _.
                Post-read (λ r. r.0 ≡ ok t → find_by_task_id id w ≡ some t) _ x (Reads-boundary _)
                  (λ e y _ h. cc)
                  (λ _ y _ _.
                    Post-read (λ r. r.0 ≡ ok t → find_by_task_id id w ≡ some t) _ y
                      (Reads-boundary _) (λ e z _ h. cc)
                      (λ _ z _ _ h.
                        let same : task ≡ t = cc in
                        query_value get_completion_failed _ w is
                        ∙ required_value _ found v was
                        ∙ ap some same)))))

-- A completion that has been dealt with: of a cancelled task, a second error of a failed task, or a
-- success with a batch that is stored.
abbrev pub IsOld : CompletionInput → ExternalTask → World → Type 0
IsOld input task w =
    (is_cancelled task ≡ true)
    ⊎ ((kind_of input.status ≡ error) × (has_failed task ≡ true))
    ⊎ ((kind_of input.status ≡ success)
        × (any (same_batch (trim_space task.source_id) (trim_space input.batch_id)) w.work.batches
            ≡ true))

module _ (sv : Services) (input : CompletionInput) where
  if_stored :
      (task : ExternalTask) (at : ℕ) (w v : World) (b : Bool)
      → b ≡ true
      → SameTables w v
      → SameTables w (if_new sv input task at b v).1
  unfolding pure
  if_stored task at w v true is same = same
  if_stored task at w v false is same = cc

  has_value :
      (task : ExternalTask) (v : World) {b : Bool}
      → (has_raw_batch task.source_id input.batch_id v).0 ≡ ok b
      → any (same_batch (trim_space task.source_id) (trim_space input.batch_id)) v.work.batches ≡ b
  unfolding has_raw_batch
  has_value task v h = query_value get_completion_failed _ v h

  stored_batch :
      (task : ExternalTask) (at : ℕ) (w v : World)
      → SameTables w v
      → any (same_batch (trim_space task.source_id) (trim_space input.batch_id)) w.work.batches
        ≡ true
      → SameTables w (handle_kind sv success input task at v).1
  unfolding handle_kind
  stored_batch task at w v same stored =
      Post-read (λ r. SameTables w r.1) _ v
        (Reads-wrap of_store _ (Reads-has_raw_batch task.source_id input.batch_id))
        (λ e u s. SameTables-trans same s)
        (λ exists u s is.
          if_stored task at w u exists
            (sym (has_value task v (wrap_value of_store _ v is))
              ∙ ap
                  (λ k.
                    any (same_batch (trim_space task.source_id) (trim_space input.batch_id))
                      k.batches)
                  same.work
              ∙ stored)
            (SameTables-trans same s))

  of_kind :
      (task : ExternalTask) (at : ℕ) (w v : World) (k : Kind)
      → kind_of input.status ≡ k
      → is_cancelled task ≡ false
      → SameTables w v
      → IsOld input task w
      → SameTables w (handle_kind sv k input task at v).1
  unfolding handle_kind pure
  of_kind task at w v k is live same (inl cancelled) = cc
  of_kind task at w v error is live same (inr (inl (_, twice))) = rw twice same
  of_kind task at w v success is live same (inr (inl (other, _))) = cc
  of_kind task at w v unknown is live same (inr (inl (other, _))) = cc
  of_kind task at w v error is live same (inr (inr (other, _))) = cc
  of_kind task at w v unknown is live same (inr (inr (other, _))) = cc
  of_kind task at w v success is live same (inr (inr (_, stored))) =
      stored_batch task at w v same stored

  ignored :
      (task : ExternalTask) (w v : World)
      → SameTables w v
      → IsOld input task w
      → SameTables w (unless_cancelled sv input task v).1
  unfolding pure
  ignored task w v same old = elim (Bool-cases (is_cancelled task)) [
    | inl cancelled ↦ rw cancelled same
    | inr live ↦ rw live (
        Post-read (λ r. SameTables w r.1) _ v (Reads-reading sv.base)
          (λ e u s. SameTables-trans same s)
          (λ now u s _.
            of_kind task _ w u (kind_of input.status) refl live (SameTables-trans same s) old))
  ]

  -- Where the first task with the identifier of a completion has been dealt with, because it was
  -- cancelled, because it failed and the completion is an error, or because the completion is a
  -- success and its batch is stored, HandleCompletion changes no table and sends nothing.
  pub handle_completion-ignores :
      (task : ExternalTask) (w : World)
      → find_by_task_id input.task_id w ≡ some task
      → IsOld input task w
      → SameTables w (handle_completion sv input w).1
  unfolding handle_completion
  handle_completion-ignores task w found old =
      Post-read (λ r. SameTables w r.1) _ w (Reads-check _) (λ e v same. same)
        (λ _ v same _.
          Post-read (λ r. SameTables w r.1) _ v
            (Reads-wrap completion_error _ (Reads-get_completion_context input.task_id))
            (λ e u s. SameTables-trans same s)
            (λ t u s is.
              let there : find_by_task_id input.task_id v ≡ some t =
                context_value input.task_id v (wrap_value completion_error _ v is) in
              let here : find_by_task_id input.task_id v ≡ find_by_task_id input.task_id w =
                ap (λ k. first (λ x. x.task_id == trim_space input.task_id) k.tasks) same.work in
              let e : task ≡ t = cc in
              ignored t w u (SameTables-trans same s) (subst (λ x. IsOld input x w) e old)))
