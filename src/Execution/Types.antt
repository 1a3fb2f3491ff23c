-- ===== src/Execution/Types.antt =====
-- internal/execution: errors.go and types.go.
use ingest_srv.Shared.{ℕ, String, Option, List, ℤ}
use ingest_srv.Json.{Fields}
use ingest_srv.Model.{TriggerType, JobStatus}
use ingest_srv.Execution.Options.{StoreErr}

-- The last constructor is an error of the repository that a use case returns as it is.
pub data Err : Type 0 where
  source_not_found target_not_found dispatch_not_allowed unsupported_dispatch_mapping : Err
  platform_meta_parse_ids facebook_page_id_required tiktok_profile_required : Err
  dispatch_failed cancel_runtime_failed completion_task_not_found invalid_completion_input : Err
  of_store : StoreErr → Err

-- A zero time is 0; no trigger type is the empty text.
pub record DispatchTargetInput : Type 0 where
  pub data_source_id : String
  pub target_id : String
  pub trigger_type : Option TriggerType
  pub scheduled_for : ℕ
  pub requested_at : ℕ
  pub cron_expr : String

pub record DispatchSpec : Type 0 where
  pub queue : String
  pub action : String
  pub params : Fields
  pub keyword : String

pub record DispatchTaskOutput : Type 0 where
  pub external_task_id : String
  pub task_id : String
  pub queue : String
  pub action : String
  pub status : JobStatus
  pub keyword : String
  pub error_message : String

pub record DispatchTargetOutput : Type 0 where
  pub scheduled_job_id : String
  pub status : JobStatus
  pub task_count : ℕ
  pub published_count : ℕ
  pub failed_count : ℕ
  pub tasks : List DispatchTaskOutput

-- A limit that is not positive is 0.
pub record DueInput : Type 0 where
  pub now : ℕ
  pub limit : ℕ
  pub cron_expr : String

pub record DueOutput : Type 0 where
  pub due_count : ℕ
  pub claimed_count : ℕ
  pub dispatched_count : ℕ
  pub skipped_race_count : ℕ
  pub failed_count : ℕ

pub record CancelInput : Type 0 where
  pub project_id : String
  pub reason : String
  pub canceled_at : ℕ

pub record CompletionInput : Type 0 where
  pub task_id : String
  pub status : String
  pub completed_at : String
  pub storage_bucket : String
  pub storage_path : String
  pub batch_id : String
  pub checksum : String
  pub item_count : Option ℤ
  pub error : String
  pub metadata : Fields
