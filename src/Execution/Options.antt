-- ===== src/Execution/Options.antt =====
-- internal/execution/repository: errors.go and option.go. A zero time is 0.
use ingest_srv.Shared.{ℕ, String, Option, ℤ}
use ingest_srv.Model.{DataSource, CrawlTarget, TriggerType, JobStatus, ExternalTask}

pub data StoreErr : Type 0 where
  source_not_found target_not_found task_not_found batch_already_exists : StoreErr
  list_due_failed claim_failed create_failed dispatch_conflict update_failed : StoreErr
  cancel_failed get_completion_failed complete_failed : StoreErr

-- err.Error()
unfoldable pub store_message : StoreErr → String
store_message source_not_found = "execution.repository: datasource not found"
store_message target_not_found = "execution.repository: target not found"
store_message task_not_found = "execution.repository: external task not found"
store_message batch_already_exists = "execution.repository: raw batch already exists"
store_message list_due_failed = "execution.repository: failed to list due targets"
store_message claim_failed = "execution.repository: failed to claim target"
store_message create_failed = "execution.repository: failed to create dispatch"
store_message dispatch_conflict = "execution.repository: dispatch already running for target"
store_message update_failed = "execution.repository: failed to update dispatch"
store_message cancel_failed = "execution.repository: failed to cancel runtime"
store_message get_completion_failed = "execution.repository: failed to get completion task"
store_message complete_failed = "execution.repository: failed to persist completion"

-- DispatchContext and DueTarget
pub record DispatchContext : Type 0 where
  pub source : DataSource
  pub target : CrawlTarget

pub record ClaimOptions : Type 0 where
  pub source_id : String
  pub target_id : String
  pub claimed_at : ℕ
  pub next_crawl_at : ℕ

pub record ReleaseOptions : Type 0 where
  pub source_id : String
  pub target_id : String

pub record CreateJobOptions : Type 0 where
  pub source : DataSource
  pub target : CrawlTarget
  pub trigger_type : Option TriggerType
  pub scheduled_for : ℕ
  pub cron_expr : String
  pub job_payload : String
  pub created_at : ℕ

pub record CreateTaskOptions : Type 0 where
  pub source : DataSource
  pub target : CrawlTarget
  pub scheduled_job_id : String
  pub task_id : String
  pub queue : String
  pub action : String
  pub domain_type_code : String
  pub request_payload : String
  pub created_at : ℕ

pub record PublishedOptions : Type 0 where
  pub external_task_id : String
  pub published_at : ℕ

pub record FailedOptions : Type 0 where
  pub external_task_id : String
  pub error_message : String
  pub failed_at : ℕ

pub record FinalizeOptions : Type 0 where
  pub scheduled_job_id : String
  pub source_id : String
  pub target_id : String
  pub status : JobStatus
  pub error_message : String
  pub completed_at : Option ℕ

pub record CancelOptions : Type 0 where
  pub project_id : String
  pub reason : String
  pub canceled_at : ℕ

pub record SuccessOptions : Type 0 where
  pub task : ExternalTask
  pub batch_id : String
  pub storage_bucket : String
  pub storage_path : String
  pub checksum : String
  pub item_count : Option ℤ
  pub size_bytes : Option ℤ
  pub domain_type_code : String
  pub raw_metadata : String
  pub completed_at : ℕ

pub record ErrorOptions : Type 0 where
  pub task : ExternalTask
  pub error_message : String
  pub completed_at : ℕ
