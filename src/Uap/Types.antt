-- ===== src/Uap/Types.antt =====
-- types.go, errors.go and repository/errors.go, repository/option.go of internal/uap, and what the
-- component calls and does not implement.
use ingest_srv.Shared.{ℕ, String, Option, List, ◌⊎◌}
use ingest_srv.Model.{PublishStatus, UapRecord}
use ingest_srv.Runtime.{World, Env}

-- The errors of the component, those of its repository, and the text of an error of the storage.
pub data UapErr : Type 0 where
  invalid_raw_batch_input parse_raw_payload : UapErr
  claim_raw_batch update_raw_batch raw_batch_not_found : UapErr
  storage_failed : String → UapErr

pub record ParseInput : Type 0 where
  pub raw_batch_id : String
  pub project_id : String
  pub domain_type_code : String
  pub source_id : String
  pub target_id : String
  pub external_task_id : String
  pub task_id : String
  pub platform : String
  pub action : String
  pub storage_bucket : String
  pub storage_path : String
  pub batch_id : String
  pub raw_metadata : String
  pub request_payload : String
  pub completion_time : ℕ

pub record ArtifactPart : Type 0 where
  pub part_no : ℕ
  pub storage_bucket : String
  pub storage_path : String
  pub record_count : ℕ

pub record PublishStats : Type 0 where
  pub topic : String
  pub attempted_count : ℕ
  pub success_count : ℕ
  pub failed_count : ℕ
  pub last_error : String

pub record ParsedOptions : Type 0 where
  pub raw_batch_id : String
  pub parsed_at : ℕ
  pub publish_record_count : ℕ
  pub publish_status : PublishStatus
  pub publish_error : String
  pub raw_metadata : String

pub record BatchFailedOptions : Type 0 where
  pub raw_batch_id : String
  pub error_message : String
  pub publish_error : String
  pub raw_metadata : String

-- DownloadFile and the reading of the body: the body, or the text of the error of either.
pub data Fetched : Type 0 where
  fetched unreadable not_found : String → Fetched

-- A function of the registry: the records that it passes to the publisher, one by one, and returns;
-- or an error, before it has passed on any.
abbrev pub ParseFunc : Type 0
ParseFunc = String → ParseInput → List UapRecord ⊎ UapErr

pub record UapServices : Type 0 where
  pub base : Env
  pub download : String → String → World → Fetched
  -- UploadFile of a body to a bucket and a path: none, or the text of the error
  pub upload : String → String → String → World → Option String
  pub output_bucket : String
  -- the Kafka publisher, if there is one: none, or the text of its error
  pub publisher : Option (UapRecord → World → Option String)
  pub topic : String
  -- path.Join
  pub path_join : List String → String
  -- flattenTikTokFullFlow, flattenYouTubeFullFlow, flattenFacebookFullFlow
  pub flatten_tiktok : ParseFunc
  pub flatten_youtube : ParseFunc
  pub flatten_facebook : ParseFunc
