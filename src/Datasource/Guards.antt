-- ===== src/Datasource/Guards.antt =====
-- The checks of usecase/helpers.go that read the database or another service.
pub mod Reads
pub mod Removal
use ingest_srv.Shared.{
  ℕ, ◌+◌, String, Bool, true, false, Option, none, some, List, [], ◌∷◌, ◌==◌, ◌&&◌, not, leb,
  nat_eq, trim_space, ℤ, is_positive, if◌then◌else◌,
}
use ingest_srv.Model.{
  DataSource, CrawlTarget, DryrunResult, SourceStatus, SourceType, SourceCategory, DryrunStatus,
  crawl, passive, webhook, CrawlMode, is_status, is_running, is_failed, is_dryrun_required,
}
use ingest_srv.Runtime.{
  Exec, Env, ProjectReply, live, gone, bad_request, unauthorized, forbidden, unreachable, ◌>>=◌,
  ◌>>◌, pure, fail, check, wrap,
}
use ingest_srv.Repository.Options.{update_of}
use ingest_srv.Repository.Sources.{
  detail_data_source, update_data_source, get_latest_dryrun_by_target,
}
use ingest_srv.Repository.Targets.{list_targets, count_active_targets}
use ingest_srv.Datasource.Types.{
  Err, not_found, project_not_found, project_archived, create_failed, update_failed,
  source_dryrun_running, target_update_failed, target_dryrun_running,
}

abbrev latest_status : Option DryrunResult → Option DryrunStatus
latest_status none = none
latest_status (some d) = some d.status

abbrev is_running_status : Option DryrunStatus → Bool
is_running_status none = false
is_running_status (some status) = is_running status

-- `if current.ID == "" { return ErrNotFound }`
abbrev pub found : Option DataSource → Exec Err DataSource
found none = fail not_found
found (some s) = pure s

module _ (env : Env) where
  unfoldable pub get_latest_dryrun_status_by_target : String → Exec Err (Option DryrunStatus)
  get_latest_dryrun_status_by_target target_id = do
    latest ← wrap (λ _. update_failed) (get_latest_dryrun_by_target env (trim_space target_id))
    pure (latest_status latest)

  unfoldable pub ensure_target_dryrun_not_running : String → Exec Err (Unit {0})
  unfolding get_latest_dryrun_status_by_target
  ensure_target_dryrun_not_running target_id = do
    status ← get_latest_dryrun_status_by_target target_id
    check (if is_running_status status then some target_dryrun_running else none)

  -- The loop over the targets of a data source.
  unfoldable pub none_running : List CrawlTarget → Exec Err (Unit {0})
  unfolding get_latest_dryrun_status_by_target
  none_running [] = pure tt
  none_running (t ∷ ts) = do
    status ← get_latest_dryrun_status_by_target t.id
    check (if is_running_status status then some source_dryrun_running else none)
    none_running ts

  unfoldable pub ensure_datasource_targets_dryrun_not_running : String → Exec Err (Unit {0})
  unfolding none_running
  ensure_datasource_targets_dryrun_not_running source_id = do
    targets ← wrap (λ _. update_failed) (list_targets env (trim_space source_id) "" none)
    none_running targets

  abbrev project_answer : ProjectReply → Option Err
  project_answer live = none
  project_answer gone = some project_archived
  project_answer bad_request = some project_not_found
  project_answer unauthorized = some create_failed
  project_answer forbidden = some create_failed
  project_answer unreachable = some create_failed

  abbrev ask_project : Option (String → ProjectReply) → String → Option Err
  ask_project none project_id = some create_failed
  ask_project (some detail) project_id = project_answer (detail (trim_space project_id))

  unfoldable pub ensure_project_available : String → Exec Err (Unit {0})
  unfolding trim_space
  ensure_project_available project_id = check (ask_project env.project project_id)

  unfoldable pub ensure_can_remove_active_target : String → Bool → Err → Exec Err (Unit {0})
  ensure_can_remove_active_target source_id false not_allowed = pure tt
  ensure_can_remove_active_target source_id true not_allowed = do
    row ← wrap (λ _. target_update_failed) (detail_data_source env (trim_space source_id))
    source ← found row
    elim (is_status source.status SourceStatus.active) [
      | false ↦ pure tt
      | true ↦ do
        n ← wrap (λ _. target_update_failed) (count_active_targets env source.id)
        check (if leb n 1 then some not_allowed else none)
    ]

  abbrev no_usable_dryrun : Option DryrunStatus → Bool
  no_usable_dryrun none = true
  no_usable_dryrun (some status) = is_failed status

  -- The loop of ensureRuntimePrerequisites; the result is the number of active targets.
  unfoldable pub check_targets : Option SourceType → Err → List CrawlTarget → ℕ → Exec Err ℕ
  check_targets source_type not_allowed [] active = pure active
  check_targets source_type not_allowed (t ∷ ts) active = elim t.is_active [
    | false ↦ check_targets source_type not_allowed ts active
    | true ↦ elim (is_dryrun_required source_type t.target_type) [
      | false ↦ check_targets source_type not_allowed ts (active + 1)
      | true ↦ do
        latest ← wrap (λ _. update_failed) (get_latest_dryrun_by_target env t.id)
        check (if no_usable_dryrun (latest_status latest) then some not_allowed else none)
        check_targets source_type not_allowed ts (active + 1)
    ]
  ]

  -- CrawlMode is set and the interval is set and positive.
  abbrev pub crawl_configured : Option CrawlMode → Option ℤ → Bool
  crawl_configured (some mode) (some n) = is_positive n
  crawl_configured _ _ = false

  abbrev webhook_configured : SourceType → DataSource → Bool
  webhook_configured webhook s = not (s.webhook_id == "") && not (s.webhook_secret_encrypted == "")
  webhook_configured _ s = false

  abbrev category_prerequisites : SourceCategory → DataSource → Err → Exec Err (Unit {0})
  category_prerequisites crawl s not_allowed = do
    check
        (if crawl_configured s.crawl_mode s.crawl_interval_minutes then none else some not_allowed)
    targets ← wrap (λ _. update_failed) (list_targets env s.id "" none)
    active ← check_targets (some s.source_type) not_allowed targets 0
    check (if nat_eq active 0 then some not_allowed else none)
  category_prerequisites passive s not_allowed =
      check (if webhook_configured s.source_type s then none else some not_allowed)

  unfoldable pub ensure_runtime_prerequisites : DataSource → Err → Exec Err (Unit {0})
  unfolding check_targets
  ensure_runtime_prerequisites s not_allowed =
      category_prerequisites s.source_category s not_allowed

  unfoldable pub mark_datasource_pending : String → Exec Err (Unit {0})
  mark_datasource_pending source_id = do
    row ← wrap (λ _. target_update_failed) (detail_data_source env (trim_space source_id))
    source ← found row
    wrap (λ _. target_update_failed)
        (update_data_source env (record (update_of source.id) {
          status = some SourceStatus.pending;
          dryrun_status = "PENDING";
        }))
    pure tt
