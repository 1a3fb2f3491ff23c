-- ===== src/Datasource/Project.antt =====
-- usecase/project_lifecycle.go: Activate, Pause, Resume and UpdateProjectCrawlMode of a project.
pub mod Starts
use ingest_srv.Shared.{
  ℕ, String, Bool, true, false, Option, none, some, List, [], ◌∷◌, ◌==◌, any, nat_eq, trim_space,
  if◌then◌else◌,
}
use ingest_srv.Model.{DataSource, SourceStatus}
use ingest_srv.Runtime.{World, ok, err, Outcome, Exec, Env, ◌>>=◌, ◌>>◌, pure, check, wrap, reading}
use ingest_srv.Repository.Options.{LifecycleOptions, BulkModeOptions}
use ingest_srv.Repository.Sources.{list_data_sources, update_project_data_sources_lifecycle}
use ingest_srv.Repository.Modes.{BulkModeOutput, bulk_apply_project_crawl_mode}
use ingest_srv.Datasource.Types.{
  Err, project_id_required, list_failed, update_failed, activation_readiness_failed,
  activate_not_allowed, resume_not_allowed, Command, activate, resume, CrawlModeInput,
  ProjectLifecycleOutput,
}
use ingest_srv.Datasource.Validate.{valid_crawl_mode_input}
use ingest_srv.Datasource.Readiness.{is_status_allowed_for_command, get_activation_readiness}

-- buildProjectLifecycleUpdateOptions for "activate", "pause" and "resume".
unfoldable pub activate_options : String → LifecycleOptions
activate_options project_id = record {
  project_id = project_id;
  from_statuses = SourceStatus.ready ∷ [];
  to_status = SourceStatus.active;
  set_activated_at = true;
  set_paused_at = false;
  clear_paused_at = true;
}

unfoldable pub pause_options : String → LifecycleOptions
pause_options project_id = record {
  project_id = project_id;
  from_statuses = SourceStatus.active ∷ [];
  to_status = SourceStatus.paused;
  set_activated_at = false;
  set_paused_at = true;
  clear_paused_at = false;
}

unfoldable pub resume_options : String → LifecycleOptions
resume_options project_id = record {
  project_id = project_id;
  from_statuses = SourceStatus.paused ∷ [];
  to_status = SourceStatus.active;
  set_activated_at = true;
  set_paused_at = false;
  clear_paused_at = true;
}

abbrev count_output : String → ℕ → ProjectLifecycleOutput
count_output project_id n = record { project_id = project_id; affected = n; noop_reason = "" }

abbrev need_project : String → Option Err
need_project project_id = if project_id == "" then some project_id_required else none

unfoldable pub ensure_project_sources_eligible : List DataSource → Command → Err → Option Err
unfolding is_status_allowed_for_command
ensure_project_sources_eligible sources command not_allowed =
    if any (λ s. is_status_allowed_for_command s.status command) sources
    then none
    else some not_allowed

unfoldable pub noop_reason : BulkModeOutput → String
noop_reason out =
    if nat_eq out.affected 0
    then if nat_eq out.eligible 0
      then "no eligible crawl datasource"
      else if nat_eq out.already_target out.eligible
      then "all eligible crawl datasources already target mode"
      else "no crawl mode changes required"
    else ""

module _ (env : Env) where
  -- The steps that Activate and Resume share.
  unfoldable pub start_sources :
      String → Command → String → Err → LifecycleOptions → Exec Err ProjectLifecycleOutput
  unfolding ensure_project_sources_eligible
  start_sources project_id command text not_allowed opt = do
    check (need_project project_id)
    readiness ← get_activation_readiness env project_id text
    check (if readiness.can_proceed then none else some activation_readiness_failed)
    sources ← wrap (λ _. list_failed) (list_data_sources env project_id)
    check (ensure_project_sources_eligible sources command not_allowed)
    n ← wrap (λ _. update_failed) (update_project_data_sources_lifecycle env opt)
    pure (count_output project_id n)

  unfoldable pub activate_project : String → Exec Err ProjectLifecycleOutput
  unfolding start_sources trim_space activate_options
  activate_project id =
      let project_id = trim_space id in
      start_sources project_id activate env.activate_text activate_not_allowed
        (activate_options project_id)

  unfoldable pub resume_project : String → Exec Err ProjectLifecycleOutput
  unfolding start_sources trim_space resume_options
  resume_project id =
      let project_id = trim_space id in
      start_sources project_id resume env.resume_text resume_not_allowed (resume_options project_id)

  abbrev cancelled : Bool × World → Outcome Err (Unit {0}) × World
  cancelled (true, w) = (ok tt, w)
  cancelled (false, w) = (err update_failed, w)

  -- Any error of CancelProjectRuntime is reported as update_failed.
  unfoldable pub cancel_project_runtime : String → String → ℕ → Exec Err (Unit {0})
  unfolding trim_space
  cancel_project_runtime project_id reason at w = elim env.cancel_runtime [
    | none ↦ (ok tt, w)
    | some cancel ↦ cancelled (cancel (trim_space project_id) (trim_space reason) at w)
  ]

  unfoldable pub pause_project : String → Exec Err ProjectLifecycleOutput
  unfolding trim_space pause_options cancel_project_runtime
  pause_project id = do
    let project_id = trim_space id
    check (need_project project_id)
    n ←
        wrap (λ _. update_failed)
          (update_project_data_sources_lifecycle env (pause_options project_id))
    now ← reading env
    cancel_project_runtime project_id "cancelled due to project pause" now
    pure (count_output project_id n)

  unfoldable pub bulk_options : CrawlModeInput → BulkModeOptions
  unfolding trim_space
  bulk_options input = record {
    project_id = trim_space input.id;
    target_mode = trim_space input.crawl_mode;
    trigger_type = trim_space input.trigger_type;
    reason = trim_space input.reason;
    event_ref = trim_space input.event_ref;
  }

  unfoldable pub update_project_crawl_mode : CrawlModeInput → Exec Err ProjectLifecycleOutput
  unfolding bulk_options noop_reason trim_space
  update_project_crawl_mode input = do
    check (valid_crawl_mode_input project_id_required input)
    out ← wrap (λ _. update_failed) (bulk_apply_project_crawl_mode env (bulk_options input))
    pure (record {
      project_id = trim_space input.id;
      affected = out.affected;
      noop_reason = noop_reason out;
    })
