-- ===== src/Tests/Uap.antt =====
-- A raw batch with two records, their chunk and the run that parses them.
use ingest_srv.Shared.{
  String, none, some, List, [], ◌∷◌, ◌≡◌, ◌↔◌, inl, refl, ap, trim_space, is_blank, is_some, length,
  to_lower, update_where,
}
use ingest_srv.Json.{end}
use ingest_srv.Model.{RawBatch, BatchStatus, PublishStatus, UapRecord, post}
use ingest_srv.Runtime.{World, ok, statement, query, pure, fail, call, attempt, reading, ◌>>=◌}
use ingest_srv.Runtime.Steps.{SameTables}
use ingest_srv.Uap.Types.{ParseInput, UapServices, PublishStats, fetched}
use ingest_srv.Uap.Store.{
  parseable, to_publishing, claim_batches, claim_raw_batch_for_parsing, save_batch, to_downloaded,
  mark_raw_batch_downloaded, to_parsed, mark_raw_batch_parsed,
}
use ingest_srv.Uap.Records.{
  chunk_records, chunks_from, with_ingest_attribution, merge_raw_metadata, resolve_parser,
  marshal_chunk, build_part_path,
}
use ingest_srv.Uap.Records.Chunks.{Full, concat, chunk_records-Full}
use ingest_srv.Uap.Batch.{
  parse_and_store_raw_batch, run_batch, store_records, upload_chunks, upload_chunk, publish_records,
  publish_record, publish_result, no_stats,
}
use ingest_srv.Uap.Batch.Once.{parse_once}
use ingest_srv.Uap.Batch.Published.{on_top, attributed, published_all}
use ingest_srv.Tests.{env, world}

abbrev item : String → UapRecord
item id = record {
  identity = record {
    uap_id = id;
    origin_id = id;
    uap_type = post;
    platform = "tiktok";
    url = "";
    task_id = "task";
    project_id = "project";
  };
  hierarchy = record { parent_id = none; root_id = id; depth = 0 };
  content = record {
    text = "text";
    title = "";
    subtitle = "";
    hashtags = [];
    keywords = [];
    language = "";
    links = [];
  };
  author = record {
    id = "author";
    username = "";
    nickname = "";
    avatar = "";
    profile_url = "";
    is_verified = none;
  };
  engagement = record {
    likes = none;
    comments_count = none;
    shares = none;
    views = none;
    saves = none;
    reply_count = none;
  };
  media = [];
  temporal = record { posted_at = ""; updated_at = ""; ingested_at = "" };
  domain_type_code = "";
  crawl_keyword = "";
  platform_meta = end;
}

abbrev items : List UapRecord
items = item "a" ∷ item "b" ∷ []

-- A storage that has every object and takes any, a publisher that takes
-- every record, and a parser that knows two records.
abbrev services : UapServices
services = record {
  base = env;
  download = λ bucket path w. fetched "body";
  upload = λ bucket path body w. none;
  output_bucket = "";
  publisher = some (λ r w. none);
  topic = "uap";
  path_join = λ parts. "path";
  flatten_tiktok = λ body input. inl items;
  flatten_youtube = λ body input. inl [];
  flatten_facebook = λ body input. inl [];
}

abbrev input : ParseInput
input = record {
  raw_batch_id = "batch ";
  project_id = "project";
  domain_type_code = "";
  source_id = "source";
  target_id = "";
  external_task_id = "external";
  task_id = "task";
  platform = "TikTok";
  action = "full_flow";
  storage_bucket = "raw";
  storage_path = "raw/1";
  batch_id = "1";
  raw_metadata = "";
  request_payload = "";
  completion_time = 3;
}

abbrev row : RawBatch
row = record {
  id = "batch";
  source_id = "source";
  project_id = "project";
  domain_type_code = "";
  external_task_id = "external";
  batch_id = "1";
  status = BatchStatus.received;
  storage_bucket = "raw";
  storage_path = "raw/1";
  item_count = none;
  size_bytes = none;
  checksum = "";
  received_at = 0;
  parsed_at = none;
  publish_status = PublishStatus.pending;
  publish_record_count = 0;
  uap_published_at = none;
  error_message = "";
  publish_error = "";
  raw_metadata = "";
  created_at = 0;
}

abbrev received : World
received = record world { work = record { jobs = []; tasks = []; batches = row ∷ [] } }

chunk_records-Full_example : (concat (chunk_records items) ≡ items) × Full (chunk_records items)
chunk_records-Full_example = chunk_records-Full items

published_all_example :
    (s : PublishStats) × ((publish_records services input
        (no_stats services input)
        items
        received).0
      ≡ ok s)
    × (((publish_result (is_some services.publisher) s (length items)).0 ≡ PublishStatus.success)
        ↔ ((publish_records services input (no_stats services input) items received).1.published
            ≡ on_top (attributed services input items) received.published))
published_all_example = published_all services input items received

parse_once_example :
    SameTables
      (parse_and_store_raw_batch services input received).1
      (parse_and_store_raw_batch services input
        (parse_and_store_raw_batch services input received).1).1
unfolding parse_and_store_raw_batch run_batch resolve_parser is_blank trim_space to_lower
    claim_raw_batch_for_parsing claim_batches parseable to_publishing update_where statement call
    attempt pure fail reading ◌>>=◌ query mark_raw_batch_downloaded to_downloaded save_batch
    publish_records publish_record store_records upload_chunks upload_chunk chunk_records
    chunks_from mark_raw_batch_parsed to_parsed merge_raw_metadata publish_result
    with_ingest_attribution marshal_chunk build_part_path
parse_once_example =
    parse_once services services input input received
      (parse_and_store_raw_batch services input received).1
      (λ same. let more = ap length same.published in cc) refl refl
