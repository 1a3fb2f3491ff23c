-- ===== src/Execution/Store/Completion.antt =====
-- completion.go: what a crawler's answer does to the tables.
use ingest_srv.Shared.{
  ℕ, String, Bool, true, false, Option, none, some, ◌∷◌, ◌==◌, ◌&&◌, ◌||◌, not, any, first, is_some,
  is_negative, trim_space, ℤ, if◌then◌else◌,
}
use ingest_srv.Model.{ExternalTask, RawBatch, BatchStatus, PublishStatus}
use ingest_srv.Runtime.{
  World, Exec, ◌>>=◌, ◌>>◌, pure, fail, statement, query, reading, new_id, transaction,
}
use ingest_srv.Repository.Sources as Sources
use ingest_srv.Execution.Options.{
  StoreErr, task_not_found, get_completion_failed, complete_failed, batch_already_exists,
  SuccessOptions, ErrorOptions,
}
use ingest_srv.Execution.Services.{Services}
use ingest_srv.Execution.Store.{find_task, with_batches, required, boundary}
use ingest_srv.Execution.Store.Status.{
  update_task_success, update_task_failure, recompute_job_status, update_target_success,
  update_target_failure, update_source_success, update_source_failure,
}

-- The task, then the three relations that are loaded with it.
unfoldable pub get_completion_context : String → Exec StoreErr ExternalTask
get_completion_context task_id = do
  found ←
      query get_completion_failed (λ w. first (λ t. t.task_id == trim_space task_id) w.work.tasks)
  task ← required task_not_found found
  boundary get_completion_failed
  boundary get_completion_failed
  boundary get_completion_failed
  pure task

abbrev pub same_batch : String → String → RawBatch → Bool
same_batch source_id batch_id b = b.source_id == source_id && b.batch_id == batch_id

unfoldable pub has_raw_batch : String → String → Exec StoreErr Bool
has_raw_batch source_id batch_id =
    query get_completion_failed
      (λ w. any (same_batch (trim_space source_id) (trim_space batch_id)) w.work.batches)

unfoldable pub batch_row : SuccessOptions → String → ℕ → RawBatch
batch_row opt id now = record {
  id = id;
  source_id = opt.task.source_id;
  project_id = opt.task.project_id;
  domain_type_code = opt.domain_type_code;
  external_task_id = opt.task.id;
  batch_id = opt.batch_id;
  status = BatchStatus.received;
  storage_bucket = opt.storage_bucket;
  storage_path = opt.storage_path;
  item_count = opt.item_count;
  size_bytes = opt.size_bytes;
  checksum = opt.checksum;
  received_at = opt.completed_at;
  parsed_at = none;
  publish_status = PublishStatus.pending;
  publish_record_count = 0;
  uap_published_at = none;
  error_message = "";
  publish_error = "";
  raw_metadata = opt.raw_metadata;
  created_at = now;
}

abbrev pub not_negative : Option ℤ → Bool
not_negative none = true
not_negative (some n) = not (is_negative n)

-- The CHECK constraints, and the foreign keys to the data source and the task.
unfoldable pub batch_ok : RawBatch → World → Bool
batch_ok b w =
    not_negative b.item_count
    && not_negative b.size_bytes
    && is_some (Sources.find b.source_id w.sources)
    && is_some (find_task b.external_task_id w.work.tasks)

abbrev pub is_duplicate : RawBatch → World → Bool
is_duplicate b w = any (λ c. c.id == b.id || same_batch b.source_id b.batch_id c) w.work.batches

-- INSERT. A unique violation is told apart from the other errors; a CHECK comes before it, a foreign
-- key after it.
unfoldable pub insert_batch : RawBatch → World → Option (Bool × World)
insert_batch b w =
    if not_negative b.item_count && not_negative b.size_bytes
    then if is_duplicate b w
      then some (false, w)
      else if batch_ok b w
      then some (true, with_batches w (b ∷ w.work.batches))
      else none
    else none

abbrev pub inserted_or_duplicate : Bool → Exec StoreErr (Unit {0})
inserted_or_duplicate true = pure tt
inserted_or_duplicate false = fail batch_already_exists

module _ (sv : Services) where
  -- The writes that follow the new batch.
  abbrev pub record_success : SuccessOptions → Exec StoreErr (Unit {0})
  record_success opt = do
    update_task_success opt.task.id opt.completed_at
    recompute_job_status sv opt.task.scheduled_job_id opt.completed_at
    update_target_success sv.base opt.task.target_id opt.completed_at
    update_source_success sv.base opt.task.source_id opt.completed_at

  unfoldable pub success_body : SuccessOptions → Exec StoreErr RawBatch
  success_body opt = do
    boundary complete_failed
    id ← new_id sv.base
    now ← reading sv.base
    inserted ← statement complete_failed (insert_batch (batch_row opt id now))
    inserted_or_duplicate inserted
    record_success opt
    boundary complete_failed
    pure (batch_row opt id now)

  unfoldable pub complete_task_success : SuccessOptions → Exec StoreErr RawBatch
  unfolding success_body
  complete_task_success opt = transaction (success_body opt)

  unfoldable pub error_body : ErrorOptions → Exec StoreErr (Unit {0})
  error_body opt = do
    boundary complete_failed
    update_task_failure opt.task.id opt.error_message opt.completed_at
    recompute_job_status sv opt.task.scheduled_job_id opt.completed_at
    update_target_failure sv.base opt.task.target_id opt.error_message opt.completed_at
    update_source_failure sv.base opt.task.source_id opt.error_message opt.completed_at
    boundary complete_failed

  unfoldable pub complete_task_error : ErrorOptions → Exec StoreErr (Unit {0})
  unfolding error_body
  complete_task_error opt = transaction (error_body opt)
