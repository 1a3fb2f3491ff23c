-- ===== src/Dryrun/Trigger/Launches.antt =====
-- What Trigger does once its guards hold: CreateResult, MarkDryrunRunning and the dispatch.
use ingest_srv.Shared.{
  ℕ, String, Bool, true, false, Option, ◌≡◌, refl, ◌∙◌, ap, sym, subst, ◌∷◌, trim_space,
}
use ingest_srv.Model.{DryrunResult, DryrunStatus, DataSource, Message}
use ingest_srv.Runtime.{
  World, Outcome, ok, err, Exec, ◌>>=◌, pure, wrap, call, spent, reading, map_err,
}
use ingest_srv.Runtime.Steps.{Reads-reading, SameTables, Post-bind, Post-read}
use ingest_srv.Runtime.Unsent.{Unsent-wrap}
use ingest_srv.Runtime.Spares.{Spares-wrap}
use ingest_srv.Dryrun.Types.{DryrunErr, TriggerInput, TriggerOutput, DryrunSpec, DryrunServices}
use ingest_srv.Dryrun.Results.{CreateResultOptions, create_result, result_row}
use ingest_srv.Dryrun.Store.{ResultErr}
use ingest_srv.Dryrun.Store.Unsent.{Unsent-mark_dryrun_running, Spares-mark_dryrun_running}
use ingest_srv.Datasource.Dryrun.{mark_dryrun_running}
use ingest_srv.Dryrun.Trigger.{publish_dispatch, dispatched, note_sent, taken_by}
use ingest_srv.Dryrun.Trigger.Created.{
  Creates, refused, made, create_result-Creates, Unsent-fail_dispatch, fail_dispatch_fails,
}

-- The row and the message of a dry run: a RUNNING row for the data source and the target that was
-- asked for, and the task of the spec under the same identifier.
abbrev pub Pair : TriggerInput → DataSource → DryrunSpec → DryrunResult → Message → Type 0
Pair input source spec row m =
    (row.status ≡ DryrunStatus.running)
    × (row.source_id ≡ source.id)
    × (row.target_id ≡ trim_space input.target_id)
    × (row.job_id ≡ m.task_id)
    × (m.queue ≡ spec.queue)
    × (m.action ≡ spec.action)
    × (m.params ≡ spec.params)

pub data Launches (input : TriggerInput) (source : DataSource) (spec : DryrunSpec) (w : World)
    (r : Outcome DryrunErr TriggerOutput × World) : Type 0 where
  failed : (e : DryrunErr) → r.0 ≡ err e → r.1.sent ≡ w.sent → Launches input source spec w r
  launched :
      (out : TriggerOutput) (m : Message)
      → r.0 ≡ ok out
      → Pair input source spec out.result m
      → r.1.dryruns ≡ out.result ∷ w.dryruns
      → r.1.sent ≡ m ∷ w.sent
      → Launches input source spec w r

-- The same from a world with the same tables.
pub Launches_before :
    {input : TriggerInput} {source : DataSource} {spec : DryrunSpec} {w v : World}
    {r : Outcome DryrunErr TriggerOutput × World}
    → SameTables w v
    → Launches input source spec v r
    → Launches input source spec w r
Launches_before same (failed e is sent) = failed e is (sent ∙ same.sent)
Launches_before same (launched out m is pair dryruns sent) =
    launched out m is pair (dryruns ∙ ap (λ rows. out.result ∷ rows) same.dryruns)
      (sent ∙ ap (λ ms. m ∷ ms) same.sent)

module _ (sv : DryrunServices) where
  module _ (input : TriggerInput) (source : DataSource) (spec : DryrunSpec) (w : World) where
    abbrev message : String → ℕ → Message
    message id now = record {
      queue = spec.queue;
      task_id = id;
      action = spec.action;
      params = spec.params;
      created_at = now;
    }

    abbrev mark_and_dispatch : DryrunResult → String → Exec DryrunErr TriggerOutput
    mark_and_dispatch row id = do
      updated ←
          wrap (λ _. DryrunErr.update_failed)
            (mark_dryrun_running sv.base (trim_space source.id) (trim_space row.id))
      now ← reading sv.base
      taken ← publish_dispatch sv (message id now)
      dispatched sv row updated taken

    abbrev asked : String → CreateResultOptions
    asked id = record {
      source_id = source.id;
      project_id = source.project_id;
      target_id = trim_space input.target_id;
      job_id = id;
      status = DryrunStatus.running;
      requested_by = sv.base.user_id;
      sample_count = 0;
    }

    abbrev pub launch : String → Exec DryrunErr TriggerOutput
    launch id = do
      row ← wrap (λ _. DryrunErr.create_failed) (create_result sv.base (asked id))
      mark_and_dispatch row id

    module _ (row : DryrunResult) (m : Message) (pair : Pair input source spec row m) where
      sent_or_failed :
          (taken : Bool) (updated : Option DataSource) (v : World)
          → v.dryruns ≡ row ∷ w.dryruns
          → v.sent ≡ w.sent
          → Launches input source spec w ((note_sent sv m taken >>= dispatched sv row updated) v)
      unfolding ◌>>=◌ pure
      sent_or_failed true updated v dryruns sent =
          launched (record { result = row; source = updated }) m refl pair dryruns
            (ap (λ ms. m ∷ ms) sent)
      sent_or_failed false updated v dryruns sent =
          let (e, is) = fail_dispatch_fails sv row v in
          failed e is ((Unsent-fail_dispatch sv row).unsent v ∙ sent)

      dispatch_launches :
          (updated : Option DataSource) (v : World)
          → v.dryruns ≡ row ∷ w.dryruns
          → v.sent ≡ w.sent
          → Launches input source spec w ((publish_dispatch sv m >>= dispatched sv row updated) v)
      unfolding publish_dispatch ◌>>=◌ call
      dispatch_launches updated v dryruns sent =
          sent_or_failed (taken_by sv sv.publisher m v) updated (spent v) dryruns sent

    marked :
        (row : DryrunResult) (id : String) (v : World)
        → ((now : ℕ) → Pair input source spec row (message id now))
        → v.dryruns ≡ row ∷ w.dryruns
        → v.sent ≡ w.sent
        → Launches input source spec w (mark_and_dispatch row id v)
    marked row id v pair dryruns sent =
        let spares =
          Spares-mark_dryrun_running sv.base (trim_space source.id) (trim_space row.id) in
        let unsent =
          Unsent-mark_dryrun_running sv.base (trim_space source.id) (trim_space row.id) in
        let kept_sent = (Unsent-wrap (λ _. DryrunErr.update_failed) _ unsent).unsent v ∙ sent in
        let kept_rows = (Spares-wrap (λ _. DryrunErr.update_failed) _ spares).spared v ∙ dryruns in
        Post-bind (Launches input source spec w) _ _ v (λ e h. failed e refl kept_sent)
          (λ p. absurd ((Spares-wrap (λ _. DryrunErr.update_failed) _ spares).calm.calm v p))
          (λ updated h.
            Post-read (Launches input source spec w) _ _ (Reads-reading sv.base)
              (λ e u s. failed e refl (s.sent ∙ kept_sent))
              (λ now u s _.
                dispatch_launches row (message id now) (pair now) updated u (s.dryruns ∙ kept_rows)
                  (s.sent ∙ kept_sent)))

    created :
        (id : String) (r : Outcome ResultErr DryrunResult × World)
        → Creates (asked id) w r
        → Launches input source spec w (
            ((λ u. (map_err (λ e. DryrunErr.create_failed) r.0, r.1)) >>= λ row.
            mark_and_dispatch row id)
              w)
    unfolding ◌>>=◌ result_row
    created id r (refused e is sent) =
        subst
          (λ o. Launches input source spec w (
            ((λ u. (map_err (λ e. DryrunErr.create_failed) o, r.1)) >>= λ row.
            mark_and_dispatch row id)
              w))
          (sym is) (failed DryrunErr.create_failed refl sent)
    created id r (made key now is dryruns sent) =
        subst
          (λ o. Launches input source spec w (
            ((λ u. (map_err (λ e. DryrunErr.create_failed) o, r.1)) >>= λ row.
            mark_and_dispatch row id)
              w))
          (sym is)
          (marked (result_row (asked id) key now) id r.1
            (λ at. (refl, refl, refl, refl, refl, refl, refl)) dryruns sent)

    pub launch-Launches : (id : String) → Launches input source spec w (launch id w)
    unfolding wrap ◌>>=◌
    launch-Launches id =
        created id (create_result sv.base (asked id) w) (create_result-Creates sv (asked id) w)
