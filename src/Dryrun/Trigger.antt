-- ===== src/Dryrun/Trigger.antt =====
-- Trigger and GetLatest of usecase/usecase.go, with their helpers of usecase/helpers.go.
pub mod Finds
pub mod Latest
pub mod Created
pub mod Launches
pub mod Fits
pub mod Guarded
use ingest_srv.Shared.{
  ℕ, String, Bool, true, false, Option, none, some, List, ◌∷◌, ◌==◌, ◌||◌, not, is_blank, ℤ, ◌⊎◌,
  inl, inr, trim_space, if◌then◌else◌, is_positive,
}
use ingest_srv.Model.{
  DataSource, CrawlTarget, DryrunResult, DryrunStatus, is_crawl, is_running, Message,
}
use ingest_srv.Runtime.{
  World, Exec, ok, ◌>>=◌, ◌>>◌, pure, fail, check, wrap, call, attempt, reading, new_id,
}
use ingest_srv.Datasource.Dryrun.{is_validating, mark_dryrun_running}
use ingest_srv.Datasource.Crud.{detail}
use ingest_srv.Datasource.Targets.{detail_target}
use ingest_srv.Dryrun.Types.{
  DryrunErr, TriggerInput, TriggerOutput, LatestInput, DryrunSpec, DryrunServices,
}
use ingest_srv.Dryrun.Results.{create_result, get_latest}
use ingest_srv.Dryrun.Plan.{normalize_sample_limit, build_dispatch_spec}
use ingest_srv.Dryrun.Store.{ResultErr, result_not_found, complete_result, CompleteResultOptions}

abbrev pub require : Bool → DryrunErr → Option DryrunErr
require true e = none
require false e = some e

abbrev positive_limit : Option ℤ → Bool
positive_limit none = true
positive_limit (some n) = is_positive n

unfoldable pub validate_trigger_input : TriggerInput → Option DryrunErr
unfolding is_blank
validate_trigger_input input =
    if is_blank input.source_id
    then some DryrunErr.source_not_found
    else require (positive_limit input.sample_limit) DryrunErr.invalid_sample_limit

abbrev pub latest_error : DryrunResult ⊎ ResultErr → Option DryrunErr
latest_error (inl d) =
    require (d.id == "" || not (is_running d.status)) DryrunErr.dryrun_already_running
latest_error (inr result_not_found) = none
latest_error (inr _) = some DryrunErr.get_failed

abbrev pub supported : Option DryrunSpec → Exec DryrunErr DryrunSpec
supported none = fail DryrunErr.unsupported_mapping
supported (some spec) = pure spec

abbrev latest_failure : ResultErr → DryrunErr
latest_failure result_not_found = DryrunErr.result_not_found
latest_failure _ = DryrunErr.get_failed

unfoldable pub get_latest_of : LatestInput → Exec DryrunErr DryrunResult
unfolding get_latest trim_space is_blank
get_latest_of input = do
  check (require (not (is_blank input.source_id)) DryrunErr.source_not_found)
  wrap latest_failure (
      get_latest
        (record { source_id = trim_space input.source_id; target_id = trim_space input.target_id }))

module _ (sv : DryrunServices) where
  unfoldable pub get_source : String → Exec DryrunErr DataSource
  unfolding detail trim_space
  get_source id = do
    source ← wrap (λ _. DryrunErr.source_not_found) (detail sv.base (trim_space id))
    check (require (not (source.id == "")) DryrunErr.source_not_found)
    pure source

  unfoldable pub get_target : (source_id id : String) → Exec DryrunErr CrawlTarget
  unfolding detail_target trim_space
  get_target source_id id = do
    target ←
        wrap (λ _. DryrunErr.target_not_found)
          (detail_target sv.base
            (record { data_source_id = trim_space source_id; id = trim_space id }))
    check (require (not (target.id == "")) DryrunErr.target_not_found)
    pure target

  abbrev pub crawl_target : DataSource → String → Exec DryrunErr (Option CrawlTarget)
  crawl_target source target_id = do
    check (require (not (is_blank target_id)) DryrunErr.target_required)
    target ← get_target source.id target_id
    latest ← attempt (get_latest (record { source_id = source.id; target_id = target.id }))
    check (latest_error latest)
    pure (some target)

  abbrev pub no_target : String → Exec DryrunErr (Option CrawlTarget)
  no_target target_id = do
    check (require (is_blank target_id) DryrunErr.target_forbidden)
    pure none

  -- The target of a crawl, which has no dry run under way; no other data source takes one.
  unfoldable pub target_for : DataSource → String → Exec DryrunErr (Option CrawlTarget)
  unfolding get_target get_latest is_blank
  target_for source target_id =
      if is_crawl source.source_category then crawl_target source target_id else no_target target_id

  abbrev pub taken_by : Option (Message → World → Bool) → Message → World → Bool
  taken_by none m w = false
  taken_by (some p) m w = p m w

  abbrev pub note_sent : Message → Bool → Exec DryrunErr Bool
  note_sent m true w = (ok true, record w { sent = m ∷ w.sent })
  note_sent m false w = (ok false, w)

  -- Whether the message was sent.
  unfoldable pub publish_dispatch : Message → Exec DryrunErr Bool
  publish_dispatch m = do taken ← call (taken_by sv.publisher m); note_sent m taken

  -- failDispatch with the text of ErrDispatchFailed; the output beside the error is left out.
  unfoldable pub fail_dispatch : DryrunResult → Exec DryrunErr TriggerOutput
  unfolding complete_result
  fail_dispatch running = do
    now ← reading sv.base
    wrap (λ _. DryrunErr.update_failed)
        (complete_result sv.base (record {
          id = running.id;
          status = DryrunStatus.failed;
          sample_count = 0;
          completed_at = some now;
          total_found = none;
          sample_data = "";
          warnings = "";
          error_message = "failed to dispatch dryrun task";
          activate_target = false;
        }))
    fail DryrunErr.dispatch_failed

  abbrev pub dispatched : DryrunResult → Option DataSource → Bool → Exec DryrunErr TriggerOutput
  dispatched running source true = pure (record { result = running; source = source })
  dispatched running source false = fail_dispatch running

  unfoldable pub trigger : TriggerInput → Exec DryrunErr TriggerOutput
  unfolding validate_trigger_input get_source target_for build_dispatch_spec normalize_sample_limit
      create_result mark_dryrun_running publish_dispatch fail_dispatch trim_space
  trigger input = do
    check (validate_trigger_input input)
    source ← get_source input.source_id
    check (require (is_validating source.status) DryrunErr.dryrun_not_allowed)
    target ← target_for source input.target_id
    spec ←
        supported (build_dispatch_spec sv source target (normalize_sample_limit input.sample_limit))
    task_id ← new_id sv.base
    running ←
        wrap (λ _. DryrunErr.create_failed)
          (create_result sv.base (record {
            source_id = source.id;
            project_id = source.project_id;
            target_id = trim_space input.target_id;
            job_id = task_id;
            status = DryrunStatus.running;
            requested_by = sv.base.user_id;
            sample_count = 0;
          }))
    updated ←
        wrap (λ _. DryrunErr.update_failed)
          (mark_dryrun_running sv.base (trim_space source.id) (trim_space running.id))
    now ← reading sv.base
    taken ← publish_dispatch (record {
      queue = spec.queue;
      task_id = task_id;
      action = spec.action;
      params = spec.params;
      created_at = now;
    })
    dispatched running updated taken
