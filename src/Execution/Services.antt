-- ===== src/Execution/Services.antt =====
-- What the execution component calls and does not implement, beside `Env`. An answer may depend on
-- the world, so it may change from one call to the next.
use ingest_srv.Shared.{ℕ, String, Bool, Option, ℤ}
use ingest_srv.Model.{ExternalTask, RawBatch, Message}
use ingest_srv.Runtime.{World, Env}

pub data ProjectStatus : Type 0 where
  pending active paused archived other : ProjectStatus

-- What the execution component reads of a project.
pub record ProjectDetail : Type 0 where
  pub status : ProjectStatus
  pub domain_type_code : String

-- The answer of a call, or the text of its error.
pub data Reply {ℓ} (A : Type ℓ) : Type ℓ where
  answer : A → Reply A
  failure : String → Reply A

-- The MinIO client: FileExists, and GetFileInfo with the size of an object.
pub record Storage : Type 0 where
  pub file_exists : String → String → World → Reply Bool
  pub file_info : String → String → World → Reply ℤ

-- The uap component: SupportsParse of a platform and an action, and ParseAndStoreRawBatch, whose
-- error is only logged.
pub record Parser : Type 0 where
  pub supports_parse : String → String → Bool
  pub parse_and_store : RawBatch → ExternalTask → ℕ → World → World

-- url.Parse: the path, and the first value of the query parameter "id".
pub record Url : Type 0 where
  pub path : String
  pub id : String

pub record Services : Type 0 where
  pub base : Env
  pub project : Option (String → World → Reply ProjectDetail)
  -- the RabbitMQ publisher: none, or the text of its error
  pub publish : Option (Message → World → Option String)
  pub storage : Option Storage
  pub parser : Option Parser
  pub parse_url : String → Option Url
  -- time.Parse with the layout RFC3339
  pub parse_time : String → Option ℕ
  -- Go's conversion of a float64, which a JSON number names, to an integer
  pub integer : String → ℤ
  -- the queue names of the shared constants
  pub tiktok_queue : String
  pub facebook_queue : String
  pub youtube_queue : String
