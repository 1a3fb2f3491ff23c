-- ===== src/Uap/Batch.antt =====
-- usecase.go, publisher.go and failRawBatch and uploadChunk of helpers_common.go: the run of a raw
-- batch, from its claim to PARSED or FAILED.
pub mod Once
pub mod Published
use Prim.Native.String.{◌++◌}
use ingest_srv.Shared.{
  ℕ, suc, ◌+◌, String, Bool, true, false, Option, none, some, List, [], ◌∷◌, ◌==◌, ◌&&◌, not, ◌⊎◌,
  inl, inr, ltb, length, map, is_some, any, is_blank, trim_space, decimal, if◌then◌else◌,
}
use ingest_srv.Model.{UapRecord, PublishStatus, StoredObject}
use ingest_srv.Runtime.{
  World, Exec, Outcome, ok, err, panic, ◌>>=◌, ◌>>◌, pure, fail, reading, attempt, call,
}
use ingest_srv.Uap.Types.{
  UapErr, invalid_raw_batch_input, parse_raw_payload, claim_raw_batch, update_raw_batch,
  raw_batch_not_found, storage_failed, ParseInput, ArtifactPart, PublishStats, ParsedOptions,
  ParseFunc, BatchFailedOptions, Fetched, fetched, unreadable, not_found, UapServices,
}
use ingest_srv.Uap.Store.{
  claim_raw_batch_for_parsing, mark_raw_batch_downloaded, mark_raw_batch_parsed,
  mark_raw_batch_failed,
}
use ingest_srv.Uap.Records.{
  blank_input, with_ingest_attribution, chunk_records, marshal_chunk, build_part_path,
  merge_raw_metadata, resolve_parser,
}

-- err.Error()
unfoldable pub error_text : UapErr → String
error_text invalid_raw_batch_input = "uap: invalid raw batch input"
error_text parse_raw_payload = "uap: failed to parse raw payload"
error_text claim_raw_batch = "uap.repository: failed to claim raw batch"
error_text update_raw_batch = "uap.repository: failed to update raw batch"
error_text raw_batch_not_found = "uap.repository: raw batch not found"
error_text (storage_failed text) = text

abbrev pub lift {ℓ κ} : {E : Type ℓ} {A : Type κ} → Outcome E A → Exec E A
lift o w = (o, w)

abbrev pub one_published : PublishStats → PublishStats
one_published s = record s {
  attempted_count = s.attempted_count + 1;
  success_count = s.success_count + 1;
}

abbrev pub one_unpublished : PublishStats → String → PublishStats
one_unpublished s e = record s {
  attempted_count = s.attempted_count + 1;
  failed_count = s.failed_count + 1;
  last_error = e;
}

-- The status and the error that a parsed batch gets.
unfoldable pub publish_result : Bool → PublishStats → ℕ → PublishStatus × String
unfolding is_blank decimal
publish_result enabled s total =
    if ltb 0 total && not enabled
    then (PublishStatus.failed, "kafka publisher is disabled")
    else if ltb 0 s.failed_count
    then (
      PublishStatus.failed,
      if is_blank s.last_error
          then "failed to publish "
            ++ (decimal s.failed_count ++ ("/" ++ (decimal s.attempted_count ++ " UAP records")))
          else s.last_error,
    )
    else if ltb s.success_count total
    then (
      PublishStatus.failed,
      "published " ++ (decimal s.success_count ++ ("/" ++ (decimal total ++ " UAP records"))),
    )
    else (PublishStatus.success, "")

-- append(parts, part)
abbrev pub snoc {ℓ} : {A : Type ℓ} → List A → A → List A
snoc [] y = y ∷ []
snoc (x ∷ xs) y = x ∷ snoc xs y

-- `if err != nil { …; return err }`
abbrev pub or_stop {ℓ κ} :
    {E : Type ℓ} {A : Type κ} → Exec E A → (String → Exec E A) → Option String → Exec E A
or_stop next stop none = next
or_stop next stop (some e) = stop e

module _ (sv : UapServices) where
  abbrev pub note_published : PublishStats → UapRecord → Option String → Exec UapErr PublishStats
  note_published s r (some e) w = (ok (one_unpublished s e), w)
  note_published s r none w = (ok (one_published s), record w { published = r ∷ w.published })

  abbrev pub publish_with :
      Option (UapRecord → World → Option String)
      → PublishStats
      → UapRecord
      → Exec UapErr PublishStats
  publish_with none s r = pure s
  publish_with (some p) s r = do failure ← call (p r); note_published s r failure

  unfoldable pub publish_record : PublishStats → UapRecord → Exec UapErr PublishStats
  publish_record s r = publish_with sv.publisher s r

  -- The calls of onRecord while a parser runs.
  unfoldable pub publish_records :
      ParseInput → PublishStats → List UapRecord → Exec UapErr PublishStats
  unfolding publish_record with_ingest_attribution
  publish_records input s [] = pure s
  publish_records input s (r ∷ rs) = do
    s' ← publish_record s (with_ingest_attribution sv r input)
    publish_records input s' rs

  abbrev pub failed_options : ParseInput → String → String → String → BatchFailedOptions
  failed_options input error_message publish_error metadata = record {
    raw_batch_id = input.raw_batch_id;
    error_message = error_message;
    publish_error = publish_error;
    raw_metadata = metadata;
  }

  -- failRawBatch; its caller ignores the error.
  unfoldable pub fail_raw_batch :
      (input : ParseInput) (error_message publish_error : String) (parts : List ArtifactPart)
      (total : ℕ) (stats : Option PublishStats)
      → Exec UapErr (Unit {0})
  unfolding merge_raw_metadata mark_raw_batch_failed
  fail_raw_batch input error_message publish_error parts total stats = do
    metadata ← lift (merge_raw_metadata sv input.raw_metadata parts total stats)
    done ←
        attempt (mark_raw_batch_failed (failed_options input error_message publish_error metadata))
    pure tt

  abbrev pub note_uploaded :
      String → String → String → ParseInput → Option String → Exec UapErr (Option String)
  note_uploaded bucket path body input (some e) w = (ok (some e), w)
  note_uploaded bucket path body input none w = (
    ok none,
    record w { objects = record { bucket = bucket; path = path; body = body } ∷ w.objects },
  )

  -- uploadChunk: the text of its error, or none.
  unfoldable pub upload_chunk :
      String → ParseInput → ℕ → List UapRecord → Exec UapErr (Option String)
  unfolding marshal_chunk build_part_path
  upload_chunk bucket input part_no chunk = do
    failure ← call (sv.upload bucket (build_part_path sv input part_no) (marshal_chunk sv chunk))
    note_uploaded bucket (build_part_path sv input part_no) (marshal_chunk sv chunk) input failure

  abbrev pub part_of : String → ParseInput → ℕ → List UapRecord → ArtifactPart
  part_of bucket input part_no chunk = record {
    part_no = part_no;
    storage_bucket = bucket;
    storage_path = build_part_path sv input part_no;
    record_count = length chunk;
  }

  module _ (input : ParseInput) where
    abbrev pub give_up {ℓ} :
        {A : Type ℓ}
        → (error_message publish_error : String) (parts : List ArtifactPart) (total : ℕ)
          (stats : Option PublishStats) (e : UapErr)
        → Exec UapErr A
    give_up error_message publish_error parts total stats e = do
      fail_raw_batch input error_message publish_error parts total stats
      fail e

    abbrev pub output_bucket : String
    output_bucket =
        if trim_space sv.output_bucket == ""
        then input.storage_bucket
        else trim_space sv.output_bucket

    -- The loop over the chunks: `parts` are those of the chunks before.
    unfoldable pub upload_chunks :
        PublishStats
        → ℕ
        → List ArtifactPart
        → ℕ
        → List (List UapRecord)
        → Exec UapErr (List ArtifactPart)
    unfolding upload_chunk fail_raw_batch build_part_path
    upload_chunks stats total parts part_no [] = pure parts
    upload_chunks stats total parts part_no (c ∷ cs) =
        let rest =
          upload_chunks stats total (snoc parts (part_of output_bucket input part_no c))
            (suc part_no) cs in
        do
          failure ← upload_chunk output_bucket input part_no c
          or_stop rest
              (λ e.
                give_up "" ("upload uap chunk: " ++ e) parts total (some stats) (storage_failed e))
              failure

    abbrev pub settled :
        List ArtifactPart → ℕ → PublishStats → Unit {0} ⊎ UapErr → Exec UapErr (Unit {0})
    settled parts total stats (inl done) = pure tt
    settled parts total stats (inr e) =
        give_up ("mark raw batch parsed: " ++ error_text e) "" parts total (some stats) e

    abbrev pub parsed_options : PublishStats → ℕ → ℕ → String → ParsedOptions
    parsed_options stats total now metadata = record {
      raw_batch_id = input.raw_batch_id;
      parsed_at = now;
      publish_record_count = stats.success_count;
      publish_status = (publish_result (is_some sv.publisher) stats total).0;
      publish_error = (publish_result (is_some sv.publisher) stats total).1;
      raw_metadata = metadata;
    }

    -- From the parsed records on.
    unfoldable pub store_records : List UapRecord → PublishStats → Exec UapErr (Unit {0})
    unfolding upload_chunks chunk_records merge_raw_metadata publish_result mark_raw_batch_parsed
        with_ingest_attribution error_text
    store_records records stats = do
      let total = length records
      parts ←
          upload_chunks stats total [] 1
            (chunk_records (map (λ r. with_ingest_attribution sv r input) records))
      metadata ← lift (merge_raw_metadata sv input.raw_metadata parts total (some stats))
      now ← reading sv.base
      done ← attempt (mark_raw_batch_parsed (parsed_options stats total now metadata))
      settled parts total stats done

    abbrev pub no_stats : PublishStats
    no_stats = record {
      topic = trim_space sv.topic;
      attempted_count = 0;
      success_count = 0;
      failed_count = 0;
      last_error = "";
    }

    abbrev pub parsed : List UapRecord ⊎ UapErr → Exec UapErr (Unit {0})
    parsed (inr e) = give_up ("parse raw batch: " ++ error_text e) "" [] 0 (some no_stats) e
    parsed (inl records) = do
      stats ← publish_records input no_stats records
      store_records records stats

    abbrev pub downloaded : ParseFunc → String → Unit {0} ⊎ UapErr → Exec UapErr (Unit {0})
    downloaded parser body (inr e) =
        give_up ("mark raw batch downloaded: " ++ error_text e) "" [] 0 none e
    downloaded parser body (inl done) = parsed (parser body input)

    abbrev pub after_fetch : ParseFunc → Fetched → Exec UapErr (Unit {0})
    after_fetch parser (not_found e) =
        give_up ("download raw batch object: " ++ e) "" [] 0 none (storage_failed e)
    after_fetch parser (unreadable e) =
        give_up ("read raw batch object: " ++ e) "" [] 0 none (storage_failed e)
    after_fetch parser (fetched body) = do
      done ← attempt (mark_raw_batch_downloaded input.raw_batch_id)
      downloaded parser body done

    -- What follows a claim.
    unfoldable pub run_batch : ParseFunc → Exec UapErr (Unit {0})
    unfolding store_records publish_records fail_raw_batch mark_raw_batch_downloaded error_text
    run_batch parser = do
      body ← call (sv.download input.storage_bucket input.storage_path)
      after_fetch parser body

    abbrev pub if_claimed : ParseFunc → Bool → Exec UapErr (Unit {0})
    if_claimed parser true = run_batch parser
    if_claimed parser false = pure tt

    abbrev pub with_parser : Option ParseFunc → Exec UapErr (Unit {0})
    with_parser none = fail invalid_raw_batch_input
    with_parser (some parser) = do
      claimed ← claim_raw_batch_for_parsing input.raw_batch_id
      if_claimed parser claimed

    unfoldable pub parse_and_store_raw_batch : Exec UapErr (Unit {0})
    unfolding run_batch resolve_parser is_blank claim_raw_batch_for_parsing
    parse_and_store_raw_batch =
        if blank_input input
        then fail invalid_raw_batch_input
        else with_parser (resolve_parser sv input.platform input.action)
