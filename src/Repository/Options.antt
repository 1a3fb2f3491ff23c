-- ===== src/Repository/Options.antt =====
-- repository/errors.go and repository/option.go. A text is "" where the option is not given; a status
-- is an option, since every caller passes a constant or nothing.
use ingest_srv.Shared.{String, Bool, false, Option, none, List, ℤ}
use ingest_srv.Model.{SourceStatus, TargetType}

pub data RepoErr : Type 0 where
  failed_to_insert failed_to_get failed_to_update failed_to_delete failed_to_list : RepoErr
  target_failed_to_insert target_not_found target_failed_to_update target_failed_to_delete
        target_failed_to_list :
      RepoErr
  crawl_mode_change_failed_to_insert : RepoErr

pub record CreateDataSourceOptions : Type 0 where
  pub project_id : String
  pub name : String
  pub description : String
  pub source_type : String
  pub source_category : String
  pub config : String
  pub account_ref : String
  pub mapping_rules : String
  pub crawl_mode : String
  pub crawl_interval_minutes : ℤ
  pub webhook_id : String
  pub webhook_secret_encrypted : String
  pub created_by : String

pub record UpdateDataSourceOptions : Type 0 where
  pub id : String
  pub name : String
  pub description : String
  pub status : Option SourceStatus
  pub config : String
  pub account_ref : String
  pub mapping_rules : String
  pub dryrun_status : String
  pub dryrun_last_result_id : String
  pub crawl_mode : String
  pub crawl_interval_minutes : Option ℤ
  pub clear_paused_at : Bool

-- The literal that gives the identifier alone.
abbrev pub update_of : String → UpdateDataSourceOptions
update_of id = record {
  id = id;
  name = "";
  description = "";
  status = none;
  config = "";
  account_ref = "";
  mapping_rules = "";
  dryrun_status = "";
  dryrun_last_result_id = "";
  crawl_mode = "";
  crawl_interval_minutes = none;
  clear_paused_at = false;
}

pub record LifecycleOptions : Type 0 where
  pub project_id : String
  pub from_statuses : List SourceStatus
  pub to_status : SourceStatus
  pub set_activated_at : Bool
  pub set_paused_at : Bool
  pub clear_paused_at : Bool

pub record CreateTargetOptions : Type 0 where
  pub data_source_id : String
  pub target_type : TargetType
  pub values : List String
  pub label : String
  pub platform_meta : String
  pub is_active : Bool
  pub priority : ℤ
  pub crawl_interval_minutes : ℤ

pub record UpdateTargetOptions : Type 0 where
  pub data_source_id : String
  pub id : String
  pub label : String
  pub platform_meta : String
  pub is_active : Option Bool
  pub priority : Option ℤ
  pub crawl_interval_minutes : Option ℤ

abbrev pub target_update_of : String → String → UpdateTargetOptions
target_update_of source_id id = record {
  data_source_id = source_id;
  id = id;
  label = "";
  platform_meta = "";
  is_active = none;
  priority = none;
  crawl_interval_minutes = none;
}

pub record CreateCrawlModeChangeOptions : Type 0 where
  pub source_id : String
  pub project_id : String
  pub trigger_type : String
  pub from_mode : String
  pub to_mode : String
  pub from_interval_minutes : ℤ
  pub to_interval_minutes : ℤ
  pub reason : String
  pub event_ref : String
  pub triggered_by : String

pub record BulkModeOptions : Type 0 where
  pub project_id : String
  pub target_mode : String
  pub trigger_type : String
  pub reason : String
  pub event_ref : String
