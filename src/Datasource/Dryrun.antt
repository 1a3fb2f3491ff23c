-- ===== src/Datasource/Dryrun.antt =====
-- usecase/dryrun.go: what a dry run does to its data source.
pub mod Transitions
use ingest_srv.Shared.{String, Bool, Option, none, some, ◌==◌, ◌||◌, trim_space, if◌then◌else◌}
use ingest_srv.Model.{DataSource, SourceStatus, is_status}
use ingest_srv.Runtime.{Exec, Env, ◌>>=◌, fail, pure, wrap}
use ingest_srv.Repository.Options.{update_of}
use ingest_srv.Repository.Sources.{detail_data_source, update_data_source}
use ingest_srv.Datasource.Types.{Err, update_failed}
use ingest_srv.Datasource.Guards.{found}

abbrev pub is_validating : SourceStatus → Bool
is_validating status = is_status status SourceStatus.pending || is_status status SourceStatus.ready

module _ (env : Env) where
  unfoldable pub mark_dryrun_running : (id last_result : String) → Exec Err (Option DataSource)
  unfolding trim_space
  mark_dryrun_running id last_result = do
    row ← wrap (λ _. update_failed) (detail_data_source env (trim_space id))
    current ← found row
    wrap (λ _. update_failed)
        (update_data_source env (record (update_of current.id) {
          dryrun_status = "RUNNING";
          dryrun_last_result_id = trim_space last_result;
          status = if is_validating current.status then some SourceStatus.pending else none;
        }))

  -- The status that a finalised dry run asks for.
  unfoldable pub status_after_dryrun : SourceStatus → String → Option SourceStatus
  status_after_dryrun status dryrun =
      if is_validating status
      then some (if dryrun == "FAILED" then SourceStatus.pending else SourceStatus.ready)
      else none

  unfoldable pub apply_dryrun_result :
      (id last_result dryrun_status : String) → Exec Err (Option DataSource)
  unfolding trim_space status_after_dryrun
  apply_dryrun_result id last_result dryrun_status = do
    row ← wrap (λ _. update_failed) (detail_data_source env (trim_space id))
    current ← found row
    wrap (λ _. update_failed)
        (update_data_source env (record (update_of current.id) {
          dryrun_status = trim_space dryrun_status;
          dryrun_last_result_id = trim_space last_result;
          status = status_after_dryrun current.status (trim_space dryrun_status);
        }))
