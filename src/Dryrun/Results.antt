-- ===== src/Dryrun/Results.antt =====
-- CreateResult, GetByJobID, UpdateResult and GetLatest of repository/postgre/dryrun.go.
use ingest_srv.Shared.{
  ℕ, String, Bool, Option, none, some, ◌∷◌, ◌==◌, ◌&&◌, ◌||◌, false, first, any, not, is_some,
  if◌then◌else◌,
}
use ingest_srv.Model.{DryrunResult, DryrunStatus}
use ingest_srv.Runtime.{World, Env, Exec, ◌>>=◌, ◌>>◌, pure, statement, query, reading, new_id}
use ingest_srv.Dryrun.Sample.{UpdateResultOptions}
use ingest_srv.Dryrun.Types.{LatestInput}
use ingest_srv.Dryrun.Store.{
  ResultErr, result_insert_failed, result_update_failed, result_get_failed, CompleteResultOptions,
  find_result, found_result, apply_result, completion_time, save_result,
}

pub record CreateResultOptions : Type 0 where
  pub source_id : String
  pub project_id : String
  pub target_id : String
  pub job_id : String
  pub status : DryrunStatus
  pub requested_by : String
  pub sample_count : ℕ

unfoldable pub result_row : CreateResultOptions → String → ℕ → DryrunResult
result_row opt id now = record {
  id = id;
  source_id = opt.source_id;
  project_id = opt.project_id;
  target_id = opt.target_id;
  job_id = opt.job_id;
  status = opt.status;
  sample_count = opt.sample_count;
  total_found = none;
  sample_data = "";
  warnings = "";
  error_message = "";
  requested_by = opt.requested_by;
  started_at = some now;
  completed_at = none;
  created_at = now;
}

-- The keys of the table: the data source and the target, if there is one, are there, and the
-- identifier is new.
unfoldable pub insert_result : DryrunResult → World → Option (DryrunResult × World)
insert_result row w =
    if any (λ s. s.id == row.source_id) w.sources
      && (row.target_id == "" || any (λ t. t.id == row.target_id) w.targets)
      && not (is_some (find_result row.id w))
    then some (row, record w { dryruns = row ∷ w.dryruns })
    else none

abbrev pub in_filter : LatestInput → DryrunResult → Bool
in_filter input d =
    d.source_id == input.source_id && (input.target_id == "" || d.target_id == input.target_id)

-- UpdateResult sets the fields that CompleteResult sets.
abbrev pub as_completion : UpdateResultOptions → CompleteResultOptions
as_completion opt = record {
  id = opt.id;
  status = opt.status;
  sample_count = opt.sample_count;
  completed_at = opt.completed_at;
  total_found = opt.total_found;
  sample_data = opt.sample_data;
  warnings = opt.warnings;
  error_message = opt.error_message;
  activate_target = false;
}

module _ (env : Env) where
  unfoldable pub create_result : CreateResultOptions → Exec ResultErr DryrunResult
  unfolding result_row insert_result
  create_result opt = do
    id ← new_id env
    now ← reading env
    statement result_insert_failed (insert_result (result_row opt id now))

  unfoldable pub update_result : UpdateResultOptions → Exec ResultErr DryrunResult
  unfolding apply_result completion_time save_result
  update_result opt = do
    found ← query result_update_failed (find_result opt.id)
    old ← found_result found
    at ← completion_time env opt.completed_at opt.status
    statement result_update_failed (save_result (apply_result (as_completion opt) at old))
    pure (apply_result (as_completion opt) at old)

unfoldable pub get_by_job_id : String → Exec ResultErr DryrunResult
get_by_job_id job_id = do
  found ← query result_get_failed (λ w. first (λ d. d.job_id == job_id) w.dryruns)
  found_result found

-- ORDER BY created_at DESC: the table is newest first.
unfoldable pub get_latest : LatestInput → Exec ResultErr DryrunResult
get_latest input = do
  found ← query result_get_failed (λ w. first (in_filter input) w.dryruns)
  found_result found
