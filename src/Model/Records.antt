-- ===== src/Model/Records.antt =====
-- The rows of data_source.go, crawl_target.go, dryrun_result.go and crawl_mode_change.go. A nullable
-- text column is a text, "" for NULL: the program stores no empty text in one, and reads NULL as "".
-- A raw JSON message is its text, "" for nil. A time counts nanoseconds from Go's zero time. The
-- columns next_crawl_at and last_crawl_at of a data source are left out: they are deprecated and
-- nothing writes them.
use ingest_srv.Shared.{ℕ, String, Bool, Option, List, ℤ}
use ingest_srv.Model.Enums.{
  SourceType, SourceCategory, SourceStatus, OnboardingStatus, DryrunStatus, CrawlMode, TargetType,
  TriggerType,
}

pub record DataSource : Type 0 where
  pub id : String
  pub project_id : String
  pub name : String
  pub description : String
  pub source_type : SourceType
  pub source_category : SourceCategory
  pub status : SourceStatus
  pub config : String
  pub account_ref : String
  pub mapping_rules : String
  pub onboarding_status : OnboardingStatus
  pub dryrun_status : DryrunStatus
  pub dryrun_last_result_id : String
  pub crawl_mode : Option CrawlMode
  pub crawl_interval_minutes : Option ℤ
  pub webhook_id : String
  pub webhook_secret_encrypted : String
  pub created_by : String
  pub activated_at : Option ℕ
  pub paused_at : Option ℕ
  pub archived_at : Option ℕ
  pub last_success_at : Option ℕ
  pub last_error_at : Option ℕ
  pub last_error_message : String
  pub created_at : ℕ
  pub updated_at : ℕ
  pub deleted_at : Option ℕ

pub record CrawlTarget : Type 0 where
  pub id : String
  pub data_source_id : String
  pub target_type : TargetType
  pub values : List String
  pub label : String
  pub platform_meta : String
  pub is_active : Bool
  pub priority : ℤ
  pub crawl_interval_minutes : ℤ
  pub next_crawl_at : Option ℕ
  pub last_crawl_at : Option ℕ
  pub last_success_at : Option ℕ
  pub last_error_at : Option ℕ
  pub last_error_message : String
  pub created_at : ℕ
  pub updated_at : ℕ

-- The check of the table keeps sample_count from being negative.
pub record DryrunResult : Type 0 where
  pub id : String
  pub source_id : String
  pub project_id : String
  pub target_id : String
  pub job_id : String
  pub status : DryrunStatus
  pub sample_count : ℕ
  pub total_found : Option ℤ
  pub sample_data : String
  pub warnings : String
  pub error_message : String
  pub requested_by : String
  pub started_at : Option ℕ
  pub completed_at : Option ℕ
  pub created_at : ℕ

pub record CrawlModeChange : Type 0 where
  pub id : String
  pub source_id : String
  pub project_id : String
  pub trigger_type : TriggerType
  pub from_mode : CrawlMode
  pub to_mode : CrawlMode
  pub from_interval_minutes : ℤ
  pub to_interval_minutes : ℤ
  pub reason : String
  pub event_ref : String
  pub triggered_by : String
  pub triggered_at : ℕ
