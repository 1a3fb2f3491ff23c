-- ===== src/Datasource/Dryrun/Transitions.antt =====
-- What the two dry run callbacks do to the status of a data source.
use ingest_srv.Shared.{
  String, none, some, ◌≡◌, ◌⊎◌, refl, sym, subst, if◌then◌else◌, ◌≢◌, trim_space,
}
use ingest_srv.Model.{DataSource, SourceStatus}
use ingest_srv.Model.SourceStatus.{pending, ready, active, paused, failed, completed, archived}
use ingest_srv.Runtime.{World, Env}
use ingest_srv.Repository.Sources.Writes.{new_status}
use ingest_srv.Datasource.Effects.{Does, Post-load, finish_update}
use ingest_srv.Datasource.Lifecycle.Transitions.{refuse}
use ingest_srv.Datasource.Dryrun.{mark_dryrun_running, is_validating}

-- A source in validation (PENDING or READY) takes a status `to`, and any other keeps its own.
abbrev ValidatesStatus : (to : SourceStatus → Type 0) → SourceStatus → SourceStatus → Type 0
ValidatesStatus to pending new = to new
ValidatesStatus to ready new = to new
ValidatesStatus to old new = new ≡ old

abbrev pub Validates : (to : SourceStatus → Type 0) → DataSource → DataSource → Type 0
Validates to old new = ValidatesStatus to old.status new.status

abbrev pub IsPending : SourceStatus → Type 0
IsPending s = s ≡ SourceStatus.pending

-- FAILED asks for PENDING, every other result for READY.
abbrev pub IsVerdict : String → SourceStatus → Type 0
IsVerdict dryrun s =
    ((dryrun ≡ "FAILED") × (s ≡ SourceStatus.pending))
    ⊎ ((dryrun ≢ "FAILED") × (s ≡ SourceStatus.ready))

marks :
    (old : SourceStatus)
    → ValidatesStatus IsPending old
        (new_status (if is_validating old then some SourceStatus.pending else none) old)
marks pending = refl
marks ready = refl
marks active = refl
marks paused = refl
marks failed = refl
marks completed = refl
marks archived = refl

module _ (env : Env) (id last_result : String) (w : World) where
  -- MarkDryrunRunning ends without a panic whatever the database answers. It changes at most one data
  -- source, which is not deleted: PENDING and READY become PENDING, every other status stays; if it
  -- returns an error, it changes none.
  pub mark_dryrun_running-Does :
      Does (Validates IsPending) w (mark_dryrun_running env id last_result w)
  unfolding mark_dryrun_running
  mark_dryrun_running-Does =
      let Edge = Validates IsPending in
      Post-load env (Does Edge w) _ (trim_space id) _ w (refuse Edge w) (λ s v same row.
        finish_update env Edge _ _ (trim_space id) s w v same row refl
          (λ t moved. subst (ValidatesStatus IsPending s.status) (sym moved) (marks s.status)))
