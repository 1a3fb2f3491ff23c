-- ===== src/Dryrun/Types.antt =====
-- types.go and errors.go of internal/dryrun, and what its use cases call and do not implement.
use ingest_srv.Shared.{ℕ, String, Bool, Option, List, ℤ, ◌⊎◌}
use ingest_srv.Json.{Fields}
use ingest_srv.Model.{DryrunResult, DataSource, Message}
use ingest_srv.Runtime.{World, Env}
use ingest_srv.Dryrun.Sample.{Warning}

pub data DryrunErr : Type 0 where
  source_not_found target_not_found target_required target_forbidden : DryrunErr
  dryrun_not_allowed dryrun_already_running unsupported_mapping invalid_sample_limit : DryrunErr
  invalid_completion_input completion_task_not_found dispatch_failed result_not_found : DryrunErr
  create_failed get_failed update_failed list_failed : DryrunErr

pub record TriggerInput : Type 0 where
  pub source_id : String
  pub target_id : String
  pub sample_limit : Option ℤ
  pub force : Bool

pub record TriggerOutput : Type 0 where
  pub result : DryrunResult
  pub source : Option DataSource

pub record HandleCompletionInput : Type 0 where
  pub task_id : String
  pub status : String
  pub completed_at : String
  pub storage_bucket : String
  pub storage_path : String
  pub item_count : Option ℤ
  pub error : String

-- GetLatestInput and GetLatestOptions.
pub record LatestInput : Type 0 where
  pub source_id : String
  pub target_id : String

-- DispatchSpec of a dry run.
pub record DryrunSpec : Type 0 where
  pub queue : String
  pub action : String
  pub params : Fields

pub record DryrunServices : Type 0 where
  pub base : Env
  -- Go's conversion of a decoded number to an int, and the decoder of warnings
  pub integer : String → ℤ
  pub decode_warnings : String → List Warning
  -- time.Parse of RFC 3339, in UTC
  pub parse_time : String → Option ℕ
  -- the RabbitMQ producer, if there is one: whether it takes the message
  pub publisher : Option (Message → World → Bool)
  -- os.ReadFile, and the download of an object and its reading, if there is a MinIO client: the
  -- bytes, or the text of the error
  pub read_file : String → World → String ⊎ String
  pub download : Option (String → String → World → String ⊎ String)
  -- the queue names of the shared constants
  pub tiktok_queue : String
  pub facebook_queue : String
  pub youtube_queue : String
