-- ===== src/Uap/Batch/Once.antt =====
-- ParseAndStoreRawBatch runs the parser of a raw batch once at most, whatever fails.
use Prim.Native.String.{◌++◌}
use ingest_srv.Shared.{
  ℕ, suc, String, Bool, true, false, Option, none, some, List, [], ◌∷◌, ◌≡◌, ◌⊎◌, sym, subst, inl,
  inr, length, trim_space, if◌then◌else◌,
}
use ingest_srv.Model.{UapRecord}
use ingest_srv.Runtime.{World, Outcome, Exec, pure, fail, ◌>>=◌}
use ingest_srv.Runtime.Steps.{
  SameTables, SameTables-refl, Reads-pure, Reads-fail, Reads-call, Reads-reading,
}
use ingest_srv.Runtime.Keeps.{Keeps, Keeps-Reads, Keeps-bind, Keeps-attempt}
use ingest_srv.Uap.Types.{
  UapErr, storage_failed, invalid_raw_batch_input, ParseInput, ArtifactPart, PublishStats,
  ParseFunc, Fetched, fetched, unreadable, not_found, UapServices,
}
use ingest_srv.Uap.Store.{claim_raw_batch_for_parsing}
use ingest_srv.Uap.Store.Claims.{
  Taken, Claims, refused, taken_before, takes, claim_raw_batch_for_parsing-Claims,
  mark_raw_batch_downloaded-Taken, mark_raw_batch_parsed-Taken, mark_raw_batch_failed-Taken,
}
use ingest_srv.Uap.Records.{
  blank_input, with_ingest_attribution, resolve_parser, merge_raw_metadata,
}
use ingest_srv.Uap.Batch.{
  lift, note_published, publish_with, publish_record, publish_records, fail_raw_batch,
  note_uploaded, upload_chunk, upload_chunks, give_up, settled, store_records, parsed, downloaded,
  after_fetch, run_batch, if_claimed, with_parser, parse_and_store_raw_batch, no_stats,
  output_bucket, part_of, snoc, or_stop, parsed_options, failed_options,
}

module _ (sv : UapServices) (id : String) where
  lift-Taken {ℓ} : {A : Type ℓ} (o : Outcome UapErr A) → Keeps (Taken id) (lift o)
  lift-Taken o = record { kept = λ w q. q }

  note_published-Taken :
      (s : PublishStats) (r : UapRecord) (o : Option String)
      → Keeps (Taken id) (note_published sv s r o)
  note_published-Taken s r none = record { kept = λ w q. q }
  note_published-Taken s r (some e) = record { kept = λ w q. q }

  publish_with-Taken :
      (p : Option (UapRecord → World → Option String)) (s : PublishStats) (r : UapRecord)
      → Keeps (Taken id) (publish_with sv p s r)
  publish_with-Taken none s r = Keeps-Reads _ (Reads-pure s)
  publish_with-Taken (some p) s r =
      Keeps-bind _ _ _ (Keeps-Reads _ (Reads-call (p r))) (λ o. note_published-Taken s r o)

  publish_records-Taken :
      (input : ParseInput) (s : PublishStats) (rs : List UapRecord)
      → Keeps (Taken id) (publish_records sv input s rs)
  unfolding publish_records publish_record
  publish_records-Taken input s [] = Keeps-Reads _ (Reads-pure s)
  publish_records-Taken input s (r ∷ rs) =
      Keeps-bind _ _ _ (publish_with-Taken sv.publisher s (with_ingest_attribution sv r input))
        (λ s'. publish_records-Taken input s' rs)

  fail_raw_batch-Taken :
      (input : ParseInput) (message publish_error : String) (parts : List ArtifactPart) (total : ℕ)
      (stats : Option PublishStats)
      → Keeps (Taken id) (fail_raw_batch sv input message publish_error parts total stats)
  unfolding fail_raw_batch
  fail_raw_batch-Taken input message publish_error parts total stats =
      Keeps-bind _ _ _ (lift-Taken (merge_raw_metadata sv input.raw_metadata parts total stats))
        (λ metadata.
          Keeps-attempt _ _ _
            (mark_raw_batch_failed-Taken id
              (failed_options sv input message publish_error metadata))
            (λ done. Keeps-Reads _ (Reads-pure tt)))

  note_uploaded-Taken :
      (bucket path body : String) (input : ParseInput) (o : Option String)
      → Keeps (Taken id) (note_uploaded sv bucket path body input o)
  note_uploaded-Taken bucket path body input none = record { kept = λ w q. q }
  note_uploaded-Taken bucket path body input (some e) = record { kept = λ w q. q }

  upload_chunk-Taken :
      (bucket : String) (input : ParseInput) (part_no : ℕ) (chunk : List UapRecord)
      → Keeps (Taken id) (upload_chunk sv bucket input part_no chunk)
  unfolding upload_chunk
  upload_chunk-Taken bucket input part_no chunk =
      Keeps-bind _ _ _ (Keeps-Reads _ (Reads-call _)) (λ o. note_uploaded-Taken bucket _ _ input o)

  or_stop-Taken {ℓ} :
      {A : Type ℓ} (next : Exec UapErr A) (stop : String → Exec UapErr A) (o : Option String)
      → Keeps (Taken id) next
      → ((e : String) → Keeps (Taken id) (stop e))
      → Keeps (Taken id) (or_stop next stop o)
  or_stop-Taken next stop none kn ks = kn
  or_stop-Taken next stop (some e) kn ks = ks e

  module _ (input : ParseInput) where
    give_up-Taken {ℓ} :
        {A : Type ℓ} (message publish_error : String) (parts : List ArtifactPart) (total : ℕ)
        (stats : Option PublishStats) (e : UapErr)
        → Keeps (Taken id) (give_up sv input {A = A} message publish_error parts total stats e)
    give_up-Taken message publish_error parts total stats e =
        Keeps-bind _ _ _ (fail_raw_batch-Taken input message publish_error parts total stats)
          (λ _. Keeps-Reads _ (Reads-fail e))

    upload_chunks-Taken :
        (stats : PublishStats) (total : ℕ) (parts : List ArtifactPart) (part_no : ℕ)
        (cs : List (List UapRecord))
        → Keeps (Taken id) (upload_chunks sv input stats total parts part_no cs)
    unfolding upload_chunks
    upload_chunks-Taken stats total parts part_no [] = Keeps-Reads _ (Reads-pure parts)
    upload_chunks-Taken stats total parts part_no (c ∷ cs) =
        Keeps-bind _ _ _ (upload_chunk-Taken _ input part_no c) (λ o.
          or_stop-Taken _ _ o
            (upload_chunks-Taken stats total
              (snoc parts (part_of sv (output_bucket sv input) input part_no c)) (suc part_no) cs)
            (λ e.
              give_up-Taken "" ("upload uap chunk: " ++ e) parts total (some stats)
                (storage_failed e)))

    settled-Taken :
        (parts : List ArtifactPart) (total : ℕ) (stats : PublishStats) (r : Unit {0} ⊎ UapErr)
        → Keeps (Taken id) (settled sv input parts total stats r)
    settled-Taken parts total stats (inl done) = Keeps-Reads _ (Reads-pure tt)
    settled-Taken parts total stats (inr e) = give_up-Taken _ _ parts total (some stats) e

    store_records-Taken :
        (records : List UapRecord) (stats : PublishStats)
        → Keeps (Taken id) (store_records sv input records stats)
    unfolding store_records
    store_records-Taken records stats =
        Keeps-bind _ _ _ (upload_chunks-Taken stats (length records) [] 1 _) (λ parts.
          Keeps-bind _ _ _ (lift-Taken _) (λ metadata.
            Keeps-bind _ _ _ (Keeps-Reads _ (Reads-reading sv.base)) (λ now.
              Keeps-attempt _ _ _
                (mark_raw_batch_parsed-Taken id
                  (parsed_options sv input stats (length records) now metadata))
                (λ done. settled-Taken parts (length records) stats done))))

    parsed-Taken : (r : List UapRecord ⊎ UapErr) → Keeps (Taken id) (parsed sv input r)
    parsed-Taken (inr e) = give_up-Taken _ "" [] 0 (some (no_stats sv input)) e
    parsed-Taken (inl records) =
        Keeps-bind _ _ _ (publish_records-Taken input (no_stats sv input) records)
          (λ stats. store_records-Taken records stats)

    downloaded-Taken :
        (parser : ParseFunc) (body : String) (r : Unit {0} ⊎ UapErr)
        → Keeps (Taken id) (downloaded sv input parser body r)
    downloaded-Taken parser body (inr e) = give_up-Taken _ "" [] 0 none e
    downloaded-Taken parser body (inl done) = parsed-Taken (parser body input)

    after_fetch-Taken :
        (parser : ParseFunc) (body : Fetched) → Keeps (Taken id) (after_fetch sv input parser body)
    after_fetch-Taken parser (not_found e) = give_up-Taken _ "" [] 0 none _
    after_fetch-Taken parser (unreadable e) = give_up-Taken _ "" [] 0 none _
    after_fetch-Taken parser (fetched body) =
        Keeps-attempt _ _ _ (mark_raw_batch_downloaded-Taken id input.raw_batch_id)
          (λ done. downloaded-Taken parser body done)

    pub run_batch-Taken : (parser : ParseFunc) → Keeps (Taken id) (run_batch sv input parser)
    unfolding run_batch
    run_batch-Taken parser =
        Keeps-bind _ _ _ (Keeps-Reads _ (Reads-call _)) (λ body. after_fetch-Taken parser body)

-- What a run does to the tables and the outside: nothing, or it leaves the raw batch taken.
data Runs (id : String) (w : World) (r : Outcome UapErr (Unit {0}) × World) : Type 0 where
  idle : SameTables w r.1 → Runs id w r
  ran : ¬ Taken id w.work → Taken id r.1.work → Runs id w r

module _ (sv : UapServices) (input : ParseInput) where
  abbrev run_if : ParseFunc → Outcome UapErr Bool → Exec UapErr (Unit {0})
  run_if parser o = lift o >>= λ claimed. if_claimed sv input parser claimed

  after_claim :
      (parser : ParseFunc) (w v : World) (o : Outcome UapErr Bool)
      → Claims (trim_space input.raw_batch_id) w (o, v)
      → Runs (trim_space input.raw_batch_id) w (run_if parser o v)
  unfolding ◌>>=◌ pure
  after_claim parser w v o (refused e is same) =
      subst (λ o'. Runs (trim_space input.raw_batch_id) w (run_if parser o' v)) (sym is) (idle same)
  after_claim parser w v o (taken_before is taken same) =
      subst (λ o'. Runs (trim_space input.raw_batch_id) w (run_if parser o' v)) (sym is) (idle same)
  after_claim parser w v o (takes is free taken) =
      subst (λ o'. Runs (trim_space input.raw_batch_id) w (run_if parser o' v)) (sym is)
        (ran free ((run_batch-Taken sv (trim_space input.raw_batch_id) input parser).kept v taken))

  with_parser-Runs :
      (o : Option ParseFunc) (w : World)
      → Runs (trim_space input.raw_batch_id) w (with_parser sv input o w)
  unfolding fail ◌>>=◌
  with_parser-Runs none w = idle (SameTables-refl w)
  with_parser-Runs (some parser) w =
      after_claim parser w (claim_raw_batch_for_parsing input.raw_batch_id w).1
        (claim_raw_batch_for_parsing input.raw_batch_id w).0
        (claim_raw_batch_for_parsing-Claims input.raw_batch_id w)

  if_blank-Runs :
      (blank : Bool) (w : World)
      → Runs (trim_space input.raw_batch_id) w (
          (if blank
              then fail invalid_raw_batch_input
              else with_parser sv input (resolve_parser sv input.platform input.action))
            w)
  unfolding fail
  if_blank-Runs true w = idle (SameTables-refl w)
  if_blank-Runs false w = with_parser-Runs (resolve_parser sv input.platform input.action) w

  parse_and_store-Runs :
      (w : World) → Runs (trim_space input.raw_batch_id) w (parse_and_store_raw_batch sv input w)
  unfolding parse_and_store_raw_batch
  parse_and_store-Runs w = if_blank-Runs (blank_input input) w

changed_once :
    {id : String} {w : World} {r : Outcome UapErr (Unit {0}) × World}
    → Runs id w r
    → ¬ SameTables w r.1
    → Taken id r.1.work
changed_once (idle same) changed = absurd (changed same)
changed_once (ran free taken) changed = taken

stays_idle :
    {id : String} {w : World} {r : Outcome UapErr (Unit {0}) × World}
    → Runs id w r
    → Taken id w.work
    → SameTables w r.1
stays_idle (idle same) taken = same
stays_idle (ran free taken') taken = absurd (free taken)

-- Where a run of ParseAndStoreRawBatch has changed a table, published a record or stored an object,
-- no run of that raw batch, from a world with the same jobs, tasks and raw batches, changes a table,
-- publishes or stores anything, with whichever services.
pub parse_once :
    (sv sv' : UapServices) (input input' : ParseInput) (w v : World)
    → ¬ SameTables w (parse_and_store_raw_batch sv input w).1
    → trim_space input'.raw_batch_id ≡ trim_space input.raw_batch_id
    → v.work ≡ (parse_and_store_raw_batch sv input w).1.work
    → SameTables v (parse_and_store_raw_batch sv' input' v).1
parse_once sv sv' input input' w v changed same_batch same_work =
    stays_idle (parse_and_store-Runs sv' input' v) (
      subst (λ id. Taken id v.work) (sym same_batch)
        (subst (Taken (trim_space input.raw_batch_id)) (sym same_work)
          (changed_once (parse_and_store-Runs sv input w) changed)))
