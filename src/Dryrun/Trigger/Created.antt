-- ===== src/Dryrun/Trigger/Created.antt =====
-- What CreateResult adds, and that failDispatch fails and sends nothing.
use ingest_srv.Shared.{
  ℕ, String, false, none, some, ◌≡◌, refl, ◌∙◌, ap, subst, ◌∷◌, inl, inr, arith,
}
use ingest_srv.Model.{DryrunResult, DryrunStatus}
use ingest_srv.Runtime.{World, Outcome, ok, err, fail}
use ingest_srv.Runtime.Steps.{
  Reads-reading, Reads-new_id, Reads-fail, Post-bind, Post-read, statement_cases,
}
use ingest_srv.Runtime.Calm.{Calm, Calm-wrap}
use ingest_srv.Runtime.Unsent.{Unsent, Unsent-Reads, Unsent-bind, Unsent-wrap}
use ingest_srv.Dryrun.Types.{DryrunErr, DryrunServices}
use ingest_srv.Dryrun.Results.{CreateResultOptions, create_result, result_row, insert_result}
use ingest_srv.Dryrun.Store.{
  ResultErr, complete_result, CompleteResultOptions, result_insert_failed,
}
use ingest_srv.Dryrun.Store.Completes.{kept, completed, complete_result-Completes}
use ingest_srv.Dryrun.Store.Unsent.{Unsent-complete_result}
use ingest_srv.Dryrun.Trigger.{fail_dispatch}

pub data Creates (opt : CreateResultOptions) (w : World)
    (r : Outcome ResultErr DryrunResult × World) : Type 0 where
  refused : (e : ResultErr) → r.0 ≡ err e → r.1.sent ≡ w.sent → Creates opt w r
  made :
      (id : String) (now : ℕ)
      → r.0 ≡ ok (result_row opt id now)
      → r.1.dryruns ≡ result_row opt id now ∷ w.dryruns
      → r.1.sent ≡ w.sent
      → Creates opt w r

inserted :
    (row : DryrunResult) (w : World) (r : DryrunResult × World)
    → insert_result row w ≡ some r
    → (row, record w { dryruns = row ∷ w.dryruns }) ≡ r
unfolding insert_result
inserted row w r h = ground (arith, h)

-- What failDispatch writes.
abbrev failure : DryrunResult → ℕ → CompleteResultOptions
failure row now = record {
  id = row.id;
  status = DryrunStatus.failed;
  sample_count = 0;
  completed_at = some now;
  total_found = none;
  sample_data = "";
  warnings = "";
  error_message = "failed to dispatch dryrun task";
  activate_target = false;
}

module _ (sv : DryrunServices) where
  pub create_result-Creates :
      (opt : CreateResultOptions) (w : World) → Creates opt w (create_result sv.base opt w)
  unfolding create_result
  create_result-Creates opt w =
      Post-read (Creates opt w) _ w (Reads-new_id sv.base) (λ e v s. refused e refl s.sent)
        (λ id v s _.
          Post-read (Creates opt w) _ v (Reads-reading sv.base)
            (λ e u t. refused e refl (t.sent ∙ s.sent))
            (λ now u t _.
              elim (statement_cases result_insert_failed (insert_result (result_row opt id now))
                u) [
                  | inl down ↦ rw down (refused result_insert_failed refl (t.sent ∙ s.sent))
                  | inr (r, accepted, runs) ↦ rw runs (
                      subst (λ x. Creates opt w (ok x.0, x.1)) (inserted _ _ _ accepted)
                        (made id now refl
                          (ap (λ rows. result_row opt id now ∷ rows) (t.dryruns ∙ s.dryruns))
                          (t.sent ∙ s.sent)))
                ]))

  completes_calmly : (opt : CompleteResultOptions) → Calm (complete_result sv.base opt)
  completes_calmly opt = record {
    calm = λ w p. elim (complete_result-Completes sv.base opt w) [
      | kept e is dryruns sources targets ↦ cc
      | completed old row source saved result there undeleted is dryruns sources synced ↦ cc
    ];
  }

  pub Unsent-fail_dispatch : (row : DryrunResult) → Unsent (fail_dispatch sv row)
  unfolding fail_dispatch
  Unsent-fail_dispatch row = Unsent-bind _ _ (Unsent-Reads (Reads-reading sv.base)) (λ now.
      Unsent-bind _ _ (Unsent-wrap _ _ (Unsent-complete_result sv.base (failure row now)))
        (λ x. Unsent-Reads (Reads-fail _)))

  pub fail_dispatch_fails :
      (row : DryrunResult) (w : World) → (e : DryrunErr) × ((fail_dispatch sv row w).0 ≡ err e)
  unfolding fail_dispatch fail
  fail_dispatch_fails row w =
      Post-read (λ r. (e : DryrunErr) × (r.0 ≡ err e)) _ w (Reads-reading sv.base)
        (λ e v s. (e, refl))
        (λ now v s _.
          Post-bind (λ r. (e : DryrunErr) × (r.0 ≡ err e)) _ _ v (λ e h. (e, refl))
            (λ p. absurd ((Calm-wrap _ _ (completes_calmly (failure row now))).calm v p))
            (λ x h. (DryrunErr.dispatch_failed, refl)))
