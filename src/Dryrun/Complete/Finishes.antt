-- ===== src/Dryrun/Complete/Finishes.antt =====
-- HandleCompletion ends a dry run once: what it does to the table of dry runs and the data sources.
use ingest_srv.Shared.{
  ℤ, String, Bool, true, false, Option, none, some, ◌≡◌, refl, ◌∙◌, ap, sym, subst, ◌⊎◌, inl, inr,
  first, ◌==◌, arith, trim_space, update_where, if◌then◌else◌,
}
use ingest_srv.Json.{Fields}
use ingest_srv.Model.{DryrunResult, CrawlTarget, is_terminal_dryrun_status, DataSource}
use ingest_srv.Runtime.{World, Outcome, ok, Exec, pure, wrap, ◌>>=◌, map_err}
use ingest_srv.Runtime.Steps.{
  Reads, Reads-pure, Reads-query, Reads-wrap, Reads-bind, Reads-call, Reads-check, SameTables-trans,
  SameTables, Post-bind, Post-read, Post-check, query_value, wrap_value,
}
use ingest_srv.Runtime.Spares.{Spares, Spares-Reads, Spares-attempt}
use ingest_srv.Datasource.Types.{Err}
use ingest_srv.Datasource.Targets.Spares.{Spares-activate_target}
use ingest_srv.Repository.Sources as Sources
use ingest_srv.Dryrun.Sample.{build_success_update, of_artifact, object_of}
use ingest_srv.Dryrun.Types.{DryrunErr, HandleCompletionInput, DryrunServices}
use ingest_srv.Dryrun.Results.{get_by_job_id}
use ingest_srv.Dryrun.Store.{ResultErr, complete_result, CompleteResultOptions, find_result}
use ingest_srv.Dryrun.Store.Completes.{
  Completes, kept, completed, complete_result-Completes, Reads-found_result, result_there,
}
use ingest_srv.Dryrun.Complete.{
  handle_completion, lookup_error, is_over, tolerated, activate_tested,
  ensure_activated_target_after_usable_dryrun, finish, finish_with, finish_artifact, from_artifact,
  failed_options, error_text_of,
}
use ingest_srv.Dryrun.Complete.Ends.{
  dryrun_of, Finishes, refused, repeated, ended, found_id, not_deleted, IsOver-is_over, not-IsOver,
  has_ended, follows,
}

module _ (sv : DryrunServices) (input : HandleCompletionInput) (w : World) where
  module _ (d : DryrunResult) (about : dryrun_of input w ≡ some d) where
    Reads-tolerated : (x : CrawlTarget ⊎ Err) → Reads (tolerated x)
    Reads-tolerated (inl t) = Reads-pure tt
    Reads-tolerated (inr e) = Reads-check _

    Spares-tested : Spares (activate_tested sv d)
    Spares-tested =
        Spares-attempt _ _ (Spares-activate_target sv.base _)
          (λ x. Spares-Reads (Reads-tolerated x))

    -- What follows CompleteResult.
    abbrev after : Outcome ResultErr (DryrunResult × DataSource) → Exec DryrunErr (Unit {0})
    after o = (λ u. (map_err (λ e. DryrunErr.update_failed) o, u)) >>= λ _. pure tt

    recorded :
        (opt : CompleteResultOptions) (v : World)
        (r : Outcome ResultErr (DryrunResult × DataSource) × World)
        → is_over d ≡ false
        → opt.id ≡ d.id
        → is_terminal_dryrun_status opt.status ≡ true
        → SameTables w v
        → Completes opt v r
        → Finishes input w (after r.0 r.1)
    unfolding ◌>>=◌ pure
    recorded opt v r still same_id over same (kept e is dryruns sources targets) =
        subst (λ o. Finishes input w (after o r.1)) (sym is)
          (refused DryrunErr.update_failed refl (dryruns ∙ same.dryruns) (sources ∙ same.sources))
    recorded opt v r still same_id over same
          (completed old row source saved result there undeleted is dryruns sources synced) =
        let here : old.id ≡ d.id = found_id opt.id v old result ∙ same_id in
        subst (λ o. Finishes input w (after o r.1)) (sym is)
          (ended d old row source saved about (not-IsOver d still) refl
            (subst (λ rows. first (λ x. x.id == d.id) rows ≡ some old) same.dryruns
              (subst (λ id. find_result id v ≡ some old) same_id result))
            (ap (Sources.find old.source_id) (sym same.sources) ∙ there)
            (not_deleted source.deleted_at undeleted) (has_ended opt d synced here over)
            (follows opt synced)
            (dryruns
              ∙ ap (λ id. update_where (λ x. x.id == id) (λ x. row) v.dryruns) here
              ∙ ap (λ rows. update_where (λ x. x.id == d.id) (λ x. row) rows) same.dryruns)
            (sources ∙ ap (Sources.replace saved) same.sources))

    finish_with-Finishes :
        (opt : CompleteResultOptions) (v : World)
        → is_over d ≡ false
        → opt.id ≡ d.id
        → is_terminal_dryrun_status opt.status ≡ true
        → SameTables w v
        → Finishes input w (finish_with sv opt v)
    unfolding finish_with wrap ◌>>=◌
    finish_with-Finishes opt v still same_id over same =
        recorded opt v (complete_result sv.base opt v) still same_id over same
          (complete_result-Completes sv.base opt v)

    sampled_over :
        (fields : Option Fields) (n : Option ℤ)
        → is_terminal_dryrun_status
            (of_artifact sv.base sv.integer sv.decode_warnings fields n).status
          ≡ true
    unfolding is_terminal_dryrun_status
    sampled_over none n = refl
    sampled_over (some fields) n = ground arith

    artifact_over :
        (answer : String ⊎ String)
        → ((from_artifact sv d input answer).id ≡ d.id)
          × (is_terminal_dryrun_status (from_artifact sv d input answer).status ≡ true)
    unfolding build_success_update is_terminal_dryrun_status
    artifact_over (inr e) = (refl, refl)
    artifact_over (inl raw) =
        (refl, sampled_over (object_of (sv.base.unmarshal raw)) input.item_count)

    by_status :
        (failed : Bool) (message : String) (v : World)
        → is_over d ≡ false
        → SameTables w v
        → Finishes input w (
            (if failed
                then finish_with sv (failed_options sv d input message)
                else finish_artifact sv d input)
              v)
    unfolding is_terminal_dryrun_status
    by_status true message v still same =
        finish_with-Finishes (failed_options sv d input message) v still refl refl same
    by_status false message v still same =
        Post-read (Finishes input w) _ v (Reads-call _)
          (λ e u stay. refused e refl (stay.dryruns ∙ same.dryruns) (stay.sources ∙ same.sources))
          (λ answer u stay is.
            finish_with-Finishes (from_artifact sv d input answer) u still (artifact_over answer).0
              (artifact_over answer).1 (SameTables-trans same stay))

    activation :
        (skip : Bool) (v : World)
        → is_over d ≡ true
        → SameTables w v
        → Finishes input w ((if skip then pure tt else activate_tested sv d) v)
    unfolding pure
    activation true v over same = repeated d about (IsOver-is_over d over) (λ p. cc) same.dryruns
    activation false v over same =
        let spares = Spares-tested in
        repeated d about (IsOver-is_over d over) (spares.calm.calm v)
          (spares.spared v ∙ same.dryruns)

    by_over :
        (over : Bool) (v : World)
        → is_over d ≡ over
        → SameTables w v
        → Finishes input w (
            (if over then ensure_activated_target_after_usable_dryrun sv d else finish sv d input)
              v)
    unfolding finish ensure_activated_target_after_usable_dryrun
    by_over true v is same = activation _ v is same
    by_over false v is same = by_status _ (error_text_of sv (trim_space input.error)) v is same

job_there :
    (id : String) (w : World) (d : DryrunResult)
    → (get_by_job_id id w).0 ≡ ok d
    → first (λ x. x.job_id == id) w.dryruns ≡ some d
unfolding get_by_job_id
job_there id w d =
    Post-bind (λ r. r.0 ≡ ok d → first (λ x. x.job_id == id) w.dryruns ≡ some d) _ _ w (λ e h k. cc)
      (λ h k. cc) (λ o h k. query_value _ _ w h ∙ result_there o d _ k)

Reads-get_by_job_id : (id : String) → Reads (get_by_job_id id)
unfolding get_by_job_id
Reads-get_by_job_id id = Reads-bind _ _ (Reads-query _ _) (λ o. Reads-found_result o)

-- HandleCompletion never panics. It fails, and all dry runs and data sources are as they were; or the
-- dry run of its task was over before, and no dry run changes; or it was not, and HandleCompletion
-- succeeds: every row with its identifier is replaced by one that is SUCCESS, WARNING or FAILED, and
-- the undeleted data source of the first of these rows gets that status and that identifier as those
-- of its dry run, and, if it was PENDING or READY, is PENDING after a FAILED dry run and READY
-- otherwise.
pub handle_completion-Finishes :
    (sv : DryrunServices) (input : HandleCompletionInput) (w : World)
    → Finishes input w (handle_completion sv input w)
unfolding handle_completion
handle_completion-Finishes sv input w =
    Post-check (Finishes input w) _ _ w (λ e _. refused e refl refl refl)
      (λ _.
        Post-read (Finishes input w) _ w (Reads-wrap _ _ (Reads-get_by_job_id _))
          (λ e v same. refused e refl same.dryruns same.sources)
          (λ d v same is.
            by_over sv input w d
              (job_there (trim_space input.task_id) w d (wrap_value lookup_error _ w is))
              (is_over d) v refl same))
