-- ===== src/Model/Jobs.antt =====
-- internal/model/scheduled_job.go, external_task.go and raw_batch.go: the work that the execution
-- component hands out. Nullable texts, raw JSON and times are those of `Records`; the relations that
-- a row can load with it are left out.
use ingest_srv.Shared.{ℕ, String, Option, List, ℤ}
use ingest_srv.Json.{Fields}
use ingest_srv.Model.Enums.{TriggerType, CrawlMode, JobStatus, BatchStatus, PublishStatus}

pub record ScheduledJob : Type 0 where
  pub id : String
  pub source_id : String
  pub project_id : String
  pub target_id : String
  pub status : JobStatus
  pub trigger_type : TriggerType
  pub cron_expr : String
  pub crawl_mode : CrawlMode
  pub scheduled_for : ℕ
  pub started_at : Option ℕ
  pub completed_at : Option ℕ
  pub error_message : String
  pub payload : String
  pub created_at : ℕ

pub record ExternalTask : Type 0 where
  pub id : String
  pub source_id : String
  pub project_id : String
  pub domain_type_code : String
  pub target_id : String
  pub scheduled_job_id : String
  pub task_id : String
  pub platform : String
  pub task_type : String
  pub routing_key : String
  pub request_payload : String
  pub status : JobStatus
  pub published_at : Option ℕ
  pub response_received_at : Option ℕ
  pub completed_at : Option ℕ
  pub error_message : String
  pub created_at : ℕ

-- storage_url, first_event_id and last_event_id are left out: nothing fills them.
pub record RawBatch : Type 0 where
  pub id : String
  pub source_id : String
  pub project_id : String
  pub domain_type_code : String
  pub external_task_id : String
  pub batch_id : String
  pub status : BatchStatus
  pub storage_bucket : String
  pub storage_path : String
  pub item_count : Option ℤ
  pub size_bytes : Option ℤ
  pub checksum : String
  pub received_at : ℕ
  pub parsed_at : Option ℕ
  pub publish_status : PublishStatus
  pub publish_record_count : ℕ
  pub uap_published_at : Option ℕ
  pub error_message : String
  pub publish_error : String
  pub raw_metadata : String
  pub created_at : ℕ

-- The three tables, each newest first.
pub record Work : Type 0 where
  pub jobs : List ScheduledJob
  pub tasks : List ExternalTask
  pub batches : List RawBatch

-- A message to the crawlers: PublishDispatchInput.
pub record Message : Type 0 where
  pub queue : String
  pub task_id : String
  pub action : String
  pub params : Fields
  pub created_at : ℕ
