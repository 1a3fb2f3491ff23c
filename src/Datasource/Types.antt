-- ===== src/Datasource/Types.antt =====
-- internal/datasource: errors.go and types.go. Raw JSON and slices that the program compares with nil
-- are options; pointers to numbers are options.
use ingest_srv.Shared.{ℕ, String, Bool, Option, List, ℤ}

pub data Err : Type 0 where
  not_found name_required project_id_required project_not_found project_archived : Err
  source_type_required invalid_source_type invalid_category invalid_crawl_mode : Err
  invalid_crawl_interval crawl_config_required create_failed update_failed delete_failed : Err
  delete_requires_archived source_archived source_dryrun_running list_failed : Err
  update_not_allowed activation_readiness_failed invalid_readiness_command : Err
  activate_not_allowed pause_not_allowed resume_not_allowed crawl_mode_not_allowed : Err
  target_not_found target_values_required target_values_must_be_urls : Err
  target_values_immutable invalid_target_type source_not_crawl target_create_failed : Err
  target_update_failed target_delete_failed target_list_failed invalid_target_interval : Err
  target_activate_not_allowed target_deactivate_not_allowed target_dryrun_running : Err

pub record CreateInput : Type 0 where
  pub project_id : String
  pub name : String
  pub description : String
  pub source_type : String
  pub source_category : String
  pub config : String
  pub account_ref : String
  pub mapping_rules : String
  pub crawl_mode : String
  pub crawl_interval_minutes : ℤ
  pub webhook_id : String
  pub webhook_secret_encrypted : String

pub record UpdateInput : Type 0 where
  pub id : String
  pub name : String
  pub description : String
  pub config : String
  pub account_ref : String
  pub mapping_rules : String
  pub crawl_interval_minutes : Option ℤ

-- UpdateCrawlModeInput, with the data source in `id`, and UpdateProjectCrawlModeInput, with the
-- project in `id`: the two have the same fields.
pub record CrawlModeInput : Type 0 where
  pub id : String
  pub crawl_mode : String
  pub trigger_type : String
  pub reason : String
  pub event_ref : String

pub record CreateTargetGroupInput : Type 0 where
  pub data_source_id : String
  pub values : List String
  pub label : String
  pub platform_meta : String
  pub priority : ℤ
  pub crawl_interval_minutes : ℤ

-- DetailTargetInput, ActivateTargetInput, DeactivateTargetInput and DeleteTargetInput.
pub record TargetInput : Type 0 where
  pub data_source_id : String
  pub id : String

pub record ListTargetsInput : Type 0 where
  pub data_source_id : String
  pub target_type : String
  pub is_active : Option Bool

pub record UpdateTargetInput : Type 0 where
  pub data_source_id : String
  pub id : String
  pub values : Option (List String)
  pub label : String
  pub platform_meta : Option String
  pub priority : Option ℤ
  pub crawl_interval_minutes : Option ℤ

pub record ProjectLifecycleOutput : Type 0 where
  pub project_id : String
  pub affected : ℕ
  pub noop_reason : String

pub data Command : Type 0 where
  activate resume : Command

-- The readiness codes of the shared contract, with the identifiers that go with them.
pub data ReadinessError : Type 0 where
  datasource_required : ReadinessError
  datasource_status : String → ReadinessError
  passive_unconfirmed : String → ReadinessError
  target_dryrun_missing : String → String → ReadinessError
  target_dryrun_failed : String → String → ReadinessError
  active_target_required : String → ReadinessError

pub record ReadinessOutput : Type 0 where
  pub project_id : String
  pub command : Command
  pub data_source_count : ℕ
  pub has_datasource : Bool
  pub passive_unconfirmed_count : ℕ
  pub missing_target_dryrun_count : ℕ
  pub failed_target_dryrun_count : ℕ
  pub can_proceed : Bool
  pub errors : List ReadinessError
