-- ===== src/Dryrun/Complete.antt =====
-- HandleCompletion of usecase/consumer.go, with its helpers of usecase/helpers.go.
pub mod Ends
pub mod Finishes
use Prim.Native.String.{◌++◌}
use ingest_srv.Shared.{
  ℕ, String, Bool, true, false, Option, none, some, ◌==◌, ◌||◌, ◌&&◌, not, is_blank, is_some,
  trim_space, to_lower, ◌⊎◌, inl, inr, if◌then◌else◌,
}
use ingest_srv.Model.{
  DryrunResult, DryrunStatus, CrawlTarget, is_terminal_dryrun_status, is_usable_dryrun_status,
}
use ingest_srv.Runtime.{World, Exec, ◌>>=◌, ◌>>◌, pure, fail, check, wrap, call, attempt}
use ingest_srv.Datasource.Types.{Err, target_not_found, target_activate_not_allowed}
use ingest_srv.Datasource.Targets.{activate_target}
use ingest_srv.Dryrun.Sample.{UpdateResultOptions, build_success_update}
use ingest_srv.Dryrun.Types.{DryrunErr, HandleCompletionInput, DryrunServices}
use ingest_srv.Dryrun.Results.{get_by_job_id}
use ingest_srv.Dryrun.Store.{ResultErr, result_not_found, complete_result, CompleteResultOptions}

abbrev known_status : HandleCompletionInput → Bool
known_status input =
    let status = to_lower (trim_space input.status) in
    if status == "success"
    then not (is_blank input.storage_bucket || is_blank input.storage_path)
    else status == "error"

unfoldable pub validate_completion_input : HandleCompletionInput → Option DryrunErr
unfolding is_blank to_lower trim_space
validate_completion_input input =
    if not (is_blank input.task_id) && known_status input
    then none
    else some DryrunErr.invalid_completion_input

abbrev pub lookup_error : ResultErr → DryrunErr
lookup_error result_not_found = DryrunErr.completion_task_not_found
lookup_error _ = DryrunErr.get_failed

-- A dry run that has ended.
unfoldable pub is_over : DryrunResult → Bool
unfolding is_terminal_dryrun_status
is_over d = is_terminal_dryrun_status d.status || is_some d.completed_at

-- The errors of ActivateTarget that are passed over.
abbrev pub passed_over : Err → Bool
passed_over target_not_found = true
passed_over target_activate_not_allowed = true
passed_over _ = false

abbrev pub tolerated : CrawlTarget ⊎ Err → Exec DryrunErr (Unit {0})
tolerated (inl t) = pure tt
tolerated (inr e) = check (if passed_over e then none else some DryrunErr.update_failed)

module _ (sv : DryrunServices) where
  unfoldable pub parse_completed_at : String → Option ℕ
  unfolding trim_space
  parse_completed_at raw = if trim_space raw == "" then none else sv.parse_time (trim_space raw)

  abbrev pub activate_tested : DryrunResult → Exec DryrunErr (Unit {0})
  activate_tested d = do
    answer ← attempt (
        activate_target sv.base
          (record { data_source_id = trim_space d.source_id; id = trim_space d.target_id }))
    tolerated answer

  unfoldable pub ensure_activated_target_after_usable_dryrun :
      DryrunResult → Exec DryrunErr (Unit {0})
  unfolding is_usable_dryrun_status is_blank activate_target trim_space
  ensure_activated_target_after_usable_dryrun d =
      if not (is_usable_dryrun_status d.status) || is_blank d.target_id
      then pure tt
      else activate_tested d

  abbrev from_storage :
      Option (String → String → World → String ⊎ String) → String → String → World → String ⊎ String
  from_storage none bucket path w = inr "minio client is not initialized"
  from_storage (some get) bucket path w = get (trim_space bucket) (trim_space path) w

  -- The bytes, or the text of the error.
  unfoldable pub download_artifact_bytes : (bucket path : String) → World → String ⊎ String
  unfolding to_lower trim_space
  download_artifact_bytes bucket path w =
      if to_lower (trim_space bucket) == "local"
      then sv.read_file (trim_space path) w
      else from_storage sv.download bucket path w

  abbrev pub failed_options : DryrunResult → HandleCompletionInput → String → CompleteResultOptions
  failed_options d input message = record {
    id = d.id;
    status = DryrunStatus.failed;
    sample_count = 0;
    completed_at = parse_completed_at input.completed_at;
    total_found = none;
    sample_data = "";
    warnings = "";
    error_message = message;
    activate_target = false;
  }

  abbrev pub sampled_options :
      DryrunResult → HandleCompletionInput → UpdateResultOptions → CompleteResultOptions
  sampled_options d input opt = record {
    id = d.id;
    status = opt.status;
    sample_count = opt.sample_count;
    completed_at = parse_completed_at input.completed_at;
    total_found = opt.total_found;
    sample_data = opt.sample_data;
    warnings = opt.warnings;
    error_message = opt.error_message;
    activate_target = is_usable_dryrun_status opt.status;
  }

  -- What a completion records, from the artifact if there is one.
  abbrev pub from_artifact :
      DryrunResult → HandleCompletionInput → String ⊎ String → CompleteResultOptions
  from_artifact d input (inr e) = failed_options d input ("download dryrun artifact: " ++ e)
  from_artifact d input (inl raw) =
      sampled_options d input
        (build_success_update sv.base sv.integer sv.decode_warnings raw input.item_count)

  abbrev pub error_text_of : String → String
  error_text_of text =
      if text == "" then "crawler returned error completion without error message" else text

  unfoldable pub finish_with : CompleteResultOptions → Exec DryrunErr (Unit {0})
  unfolding complete_result
  finish_with opt = do wrap (λ _. DryrunErr.update_failed) (complete_result sv.base opt); pure tt

  abbrev pub finish_artifact : DryrunResult → HandleCompletionInput → Exec DryrunErr (Unit {0})
  finish_artifact d input = do
    answer ← call (download_artifact_bytes input.storage_bucket input.storage_path)
    finish_with (from_artifact d input answer)

  unfoldable pub finish : DryrunResult → HandleCompletionInput → Exec DryrunErr (Unit {0})
  unfolding finish_with download_artifact_bytes build_success_update parse_completed_at
      is_usable_dryrun_status to_lower trim_space
  finish d input =
      if to_lower (trim_space input.status) == "error"
      then finish_with (failed_options d input (error_text_of (trim_space input.error)))
      else finish_artifact d input

  unfoldable pub handle_completion : HandleCompletionInput → Exec DryrunErr (Unit {0})
  unfolding validate_completion_input get_by_job_id finish is_over
      ensure_activated_target_after_usable_dryrun trim_space
  handle_completion input = do
    check (validate_completion_input input)
    d ← wrap lookup_error (get_by_job_id (trim_space input.task_id))
    if is_over d then ensure_activated_target_after_usable_dryrun d else finish d input
