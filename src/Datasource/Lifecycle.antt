-- ===== src/Datasource/Lifecycle.antt =====
-- usecase/datasource_lifecycle.go: one data source is activated, paused and resumed, and its crawl
-- mode is changed.
pub mod Completes
pub mod Transitions
use ingest_srv.Shared.{String, Bool, true, false, Option, none, some, ℤ, is_positive, trim_space}
use ingest_srv.Model.{DataSource, CrawlMode, SourceStatus, is_status, is_crawl, show_crawl_mode}
use ingest_srv.Runtime.{Exec, Env, ◌>>=◌, ◌>>◌, pure, fail, check, wrap}
use ingest_srv.Repository.Options.{update_of}
use ingest_srv.Repository.Sources.{detail_data_source, update_data_source}
use ingest_srv.Repository.Modes.{create_crawl_mode_change, status_eligible}
use ingest_srv.Datasource.Types.{
  Err, not_found, update_failed, activate_not_allowed, pause_not_allowed, resume_not_allowed,
  crawl_mode_not_allowed, CrawlModeInput,
}
use ingest_srv.Datasource.Validate.{valid_data_source_id, valid_crawl_mode_input}
use ingest_srv.Datasource.Guards.{found, ensure_runtime_prerequisites}

abbrev pub unless : Bool → Err → Option Err
unless true e = none
unless false e = some e

module _ (env : Env) where
  unfoldable pub activate_data_source : String → Exec Err (Option DataSource)
  activate_data_source id = do
    check (valid_data_source_id id)
    row ← wrap (λ _. not_found) (detail_data_source env (trim_space id))
    current ← found row
    check (unless (is_status current.status SourceStatus.ready) activate_not_allowed)
    ensure_runtime_prerequisites env current activate_not_allowed
    wrap (λ _. update_failed)
        (update_data_source env (record (update_of current.id) {
          status = some SourceStatus.active;
          clear_paused_at = true;
        }))

  unfoldable pub pause_data_source : String → Exec Err (Option DataSource)
  pause_data_source id = do
    check (valid_data_source_id id)
    row ← wrap (λ _. not_found) (detail_data_source env (trim_space id))
    current ← found row
    check (unless (is_status current.status SourceStatus.active) pause_not_allowed)
    wrap (λ _. update_failed)
        (update_data_source env
          (record (update_of current.id) { status = some SourceStatus.paused }))

  unfoldable pub resume_data_source : String → Exec Err (Option DataSource)
  resume_data_source id = do
    check (valid_data_source_id id)
    row ← wrap (λ _. not_found) (detail_data_source env (trim_space id))
    current ← found row
    check (unless (is_status current.status SourceStatus.paused) resume_not_allowed)
    ensure_runtime_prerequisites env current resume_not_allowed
    wrap (λ _. update_failed)
        (update_data_source env (record (update_of current.id) {
          status = some SourceStatus.active;
          clear_paused_at = true;
        }))

  -- From the UpdateDataSource to the audit row, with the mode and the interval that were read.
  abbrev change_mode :
      CrawlModeInput → DataSource → Option CrawlMode → Option ℤ → Exec Err (Option DataSource)
  change_mode input current (some mode) (some interval) = do
    check (unless (is_positive interval) crawl_mode_not_allowed)
    updated ←
        wrap (λ _. update_failed)
          (update_data_source env
            (record (update_of current.id) { crawl_mode = trim_space input.crawl_mode }))
    wrap (λ _. update_failed)
        (create_crawl_mode_change env (record {
          source_id = current.id;
          project_id = current.project_id;
          trigger_type = trim_space input.trigger_type;
          from_mode = show_crawl_mode mode;
          to_mode = trim_space input.crawl_mode;
          from_interval_minutes = interval;
          to_interval_minutes = interval;
          reason = trim_space input.reason;
          event_ref = trim_space input.event_ref;
          triggered_by = env.user_id;
        }))
    pure updated
  change_mode input current _ _ = fail crawl_mode_not_allowed

  unfoldable pub update_crawl_mode : CrawlModeInput → Exec Err (Option DataSource)
  unfolding show_crawl_mode trim_space
  update_crawl_mode input = do
    check (valid_crawl_mode_input not_found input)
    row ← wrap (λ _. not_found) (detail_data_source env (trim_space input.id))
    current ← found row
    check (unless (is_crawl current.source_category) crawl_mode_not_allowed)
    check (unless (status_eligible current.status) crawl_mode_not_allowed)
    change_mode input current current.crawl_mode current.crawl_interval_minutes
