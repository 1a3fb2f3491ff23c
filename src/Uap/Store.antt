-- ===== src/Uap/Store.antt =====
-- repository/postgre/raw_batch.go: the statuses of a raw batch. A NULL text is empty.
pub mod Claims
use ingest_srv.Shared.{
  ℕ, String, Bool, true, false, Option, none, some, ◌==◌, ◌&&◌, ltb, first, count, trim_space,
  update_where, if◌then◌else◌,
}
use ingest_srv.Model.{RawBatch, BatchStatus, PublishStatus, Work}
use ingest_srv.Runtime.{World, Exec, ◌>>=◌, ◌>>◌, pure, fail, statement, query}
use ingest_srv.Uap.Types.{
  UapErr, claim_raw_batch, update_raw_batch, raw_batch_not_found, ParsedOptions, BatchFailedOptions,
}

abbrev pub is_received : BatchStatus → Bool
is_received BatchStatus.received = true
is_received _ = false

abbrev pub is_pending : PublishStatus → Bool
is_pending PublishStatus.pending = true
is_pending _ = false

abbrev pub is_success : PublishStatus → Bool
is_success PublishStatus.success = true
is_success _ = false

abbrev pub find_batch : String → World → Option RawBatch
find_batch id w = first (λ b. b.id == id) w.work.batches

abbrev pub change_batches : (RawBatch → Bool) → (RawBatch → RawBatch) → World → World
change_batches p f w = record w {
  work = record w.work { batches = update_where p f w.work.batches };
}

-- WHERE id = … AND status = 'RECEIVED' AND publish_status = 'PENDING'
unfoldable pub parseable : String → RawBatch → Bool
parseable id b = b.id == id && is_received b.status && is_pending b.publish_status

unfoldable pub to_publishing : RawBatch → RawBatch
to_publishing b = record b { publish_status = PublishStatus.publishing; publish_error = "" }

-- One statement that tests and writes; it returns the number of rows.
unfoldable pub claim_batches : String → World → Option (ℕ × World)
unfolding parseable to_publishing update_where
claim_batches id w =
    some (count (parseable id) w.work.batches, change_batches (parseable id) to_publishing w)

unfoldable pub claim_raw_batch_for_parsing : String → Exec UapErr Bool
unfolding trim_space claim_batches
claim_raw_batch_for_parsing id = do
  rows ← statement claim_raw_batch (claim_batches (trim_space id))
  pure (ltb 0 rows)

abbrev pub found_batch : Option RawBatch → Exec UapErr RawBatch
found_batch none = fail raw_batch_not_found
found_batch (some b) = pure b

-- UPDATE … WHERE id = row.id
unfoldable pub save_batch : RawBatch → World → Option (Unit {0} × World)
unfolding update_where
save_batch row w = some (tt, change_batches (λ b. b.id == row.id) (λ b. row) w)

-- FindRawBatch and Update; every error of the first is ErrRawBatchNotFound.
abbrev pub change_batch : (RawBatch → RawBatch) → String → Exec UapErr (Unit {0})
change_batch f id = do
  found ← query raw_batch_not_found (find_batch id)
  row ← found_batch found
  statement update_raw_batch (save_batch (f row))

unfoldable pub to_downloaded : RawBatch → RawBatch
to_downloaded b = record b { status = BatchStatus.downloaded }

unfoldable pub mark_raw_batch_downloaded : String → Exec UapErr (Unit {0})
unfolding save_batch to_downloaded
mark_raw_batch_downloaded id = change_batch to_downloaded id

abbrev or_old_metadata : String → String → String
or_old_metadata text old = if text == "" then old else text

unfoldable pub to_parsed : ParsedOptions → RawBatch → RawBatch
unfolding trim_space
to_parsed opt b = record b {
  status = BatchStatus.parsed;
  parsed_at = some opt.parsed_at;
  publish_status = opt.publish_status;
  publish_record_count = opt.publish_record_count;
  uap_published_at =
      if is_success opt.publish_status then some opt.parsed_at else b.uap_published_at;
  error_message = "";
  publish_error = trim_space opt.publish_error;
  raw_metadata = or_old_metadata opt.raw_metadata b.raw_metadata;
}

unfoldable pub mark_raw_batch_parsed : ParsedOptions → Exec UapErr (Unit {0})
unfolding save_batch to_parsed
mark_raw_batch_parsed opt = change_batch (to_parsed opt) opt.raw_batch_id

unfoldable pub to_batch_failed : BatchFailedOptions → RawBatch → RawBatch
unfolding trim_space
to_batch_failed opt b = record b {
  status = BatchStatus.failed;
  publish_status = PublishStatus.pending;
  error_message = trim_space opt.error_message;
  publish_error = trim_space opt.publish_error;
  raw_metadata = or_old_metadata opt.raw_metadata b.raw_metadata;
}

unfoldable pub mark_raw_batch_failed : BatchFailedOptions → Exec UapErr (Unit {0})
unfolding save_batch to_batch_failed
mark_raw_batch_failed opt = change_batch (to_batch_failed opt) opt.raw_batch_id
