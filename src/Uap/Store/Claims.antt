-- ===== src/Uap/Store/Claims.antt =====
-- Which statements leave a raw batch that cannot be parsed unparseable: all of them.
use ingest_srv.Shared.{
  ℕ, List, String, Bool, true, false, Option, none, some, ◌≡◌, ◌==◌, refl, ap, ◌∙◌, inl, inr, arith,
  ltb, count, Bool-cases, count-update_all, count-update-le, update_where, update_where_none,
  trim_space,
}
use ingest_srv.Model.{RawBatch, Work}
use ingest_srv.Runtime.{World, Outcome, ok, err, spent, pure}
use ingest_srv.Runtime.Steps.{
  SameTables, Reads, Reads-pure, Reads-fail, Reads-query, SameTables-spent, Post-statement,
}
use ingest_srv.Runtime.Keeps.{Keeps, Keeps-Reads, Keeps-bind, Keeps-statement}
use ingest_srv.Runtime.Calm.{Calm, Calm-Reads, Calm-bind, Calm-statement}
use ingest_srv.Uap.Types.{UapErr, ParsedOptions, BatchFailedOptions}
use ingest_srv.Uap.Store.{
  parseable, to_publishing, claim_batches, claim_raw_batch_for_parsing, found_batch, save_batch,
  change_batch, to_downloaded, to_parsed, to_batch_failed, mark_raw_batch_downloaded,
  mark_raw_batch_parsed, mark_raw_batch_failed,
}

-- No raw batch with the identifier waits for its parser.
abbrev pub Taken : String → Work → Type 0
Taken id k = count (parseable id) k.batches ≡ 0

save_batch-Taken :
    (id : String) (row : RawBatch) (w : World) (r : Unit {0} × World)
    → parseable id row ≡ false
    → save_batch row w ≡ some r
    → Taken id w.work
    → Taken id r.1.work
unfolding save_batch
save_batch-Taken id row w r not_row saved taken = ground (
  arith,
  count-update-le (parseable id) (λ b. b.id == row.id) (λ b. row) (λ x p q. cc) w.work.batches,
)

Reads-found_batch : (o : Option RawBatch) → Reads (found_batch o)
Reads-found_batch none = Reads-fail _
Reads-found_batch (some b) = Reads-pure b

change_batch-Taken :
    (id : String) (f : RawBatch → RawBatch) (target : String)
    → ((b : RawBatch) → parseable id (f b) ≡ false)
    → Keeps (Taken id) (change_batch f target)
change_batch-Taken id f target done = Keeps-bind _ _ _ (Keeps-Reads _ (Reads-query _ _)) (λ found.
    Keeps-bind _ _ _ (Keeps-Reads _ (Reads-found_batch found))
      (λ row. Keeps-statement _ _ _ (λ w r h q. save_batch-Taken id (f row) w r (done row) h q)))

Calm-change_batch : (f : RawBatch → RawBatch) (target : String) → Calm (change_batch f target)
Calm-change_batch f target =
    Calm-bind _ _ (Calm-Reads (Reads-query _ _))
      (λ found. Calm-bind _ _ (Calm-Reads (Reads-found_batch found)) (λ row. Calm-statement _ _))

module _ (id : String) where
  pub mark_raw_batch_downloaded-Taken :
      (target : String) → Keeps (Taken id) (mark_raw_batch_downloaded target)
  unfolding mark_raw_batch_downloaded parseable to_downloaded
  mark_raw_batch_downloaded-Taken target =
      change_batch-Taken id to_downloaded target (λ b. ground arith)

  pub mark_raw_batch_parsed-Taken :
      (opt : ParsedOptions) → Keeps (Taken id) (mark_raw_batch_parsed opt)
  unfolding mark_raw_batch_parsed parseable to_parsed
  mark_raw_batch_parsed-Taken opt =
      change_batch-Taken id (to_parsed opt) opt.raw_batch_id (λ b. ground arith)

  pub mark_raw_batch_failed-Taken :
      (opt : BatchFailedOptions) → Keeps (Taken id) (mark_raw_batch_failed opt)
  unfolding mark_raw_batch_failed parseable to_batch_failed
  mark_raw_batch_failed-Taken opt =
      change_batch-Taken id (to_batch_failed opt) opt.raw_batch_id (λ b. ground arith)

pub Calm-mark_raw_batch_downloaded : (target : String) → Calm (mark_raw_batch_downloaded target)
unfolding mark_raw_batch_downloaded
Calm-mark_raw_batch_downloaded target = Calm-change_batch to_downloaded target

pub Calm-mark_raw_batch_parsed : (opt : ParsedOptions) → Calm (mark_raw_batch_parsed opt)
unfolding mark_raw_batch_parsed
Calm-mark_raw_batch_parsed opt = Calm-change_batch (to_parsed opt) opt.raw_batch_id

pub Calm-mark_raw_batch_failed : (opt : BatchFailedOptions) → Calm (mark_raw_batch_failed opt)
unfolding mark_raw_batch_failed
Calm-mark_raw_batch_failed opt = Calm-change_batch (to_batch_failed opt) opt.raw_batch_id

-- How a claim of the statement ends.
pub data Claims (id : String) (w : World) (r : Outcome UapErr Bool × World) : Type 0 where
  refused : (e : UapErr) → r.0 ≡ err e → SameTables w r.1 → Claims id w r
  taken_before : r.0 ≡ ok false → Taken id w.work → SameTables w r.1 → Claims id w r
  takes : r.0 ≡ ok true → ¬ Taken id w.work → Taken id r.1.work → Claims id w r

claimed_rows :
    (id : String) (w : World) (r : ℕ × World)
    → claim_batches id w ≡ some r
    → (r.0 ≡ count (parseable id) w.work.batches)
      × (r.1 ≡ record w {
        work = record w.work { batches = update_where (parseable id) to_publishing w.work.batches };
      })
unfolding claim_batches
claimed_rows id w r h = ground arith

none_left :
    (id : String) (w : World)
    → count (parseable id) (update_where (parseable id) to_publishing w.work.batches) ≡ 0
unfolding parseable to_publishing
none_left id w =
    count-update_all (parseable id) (parseable id) to_publishing (λ b h. h) (λ b. ground arith)
      w.work.batches

same_rows :
    (w v : World) (rows : List RawBatch)
    → v ≡ record (spent w) { work = record w.work { batches = rows } }
    → rows ≡ w.work.batches
    → SameTables w v
same_rows w v rows is same = record {
  sources = ap (λ (u : World). u.sources) is;
  targets = ap (λ (u : World). u.targets) is;
  dryruns = ap (λ (u : World). u.dryruns) is;
  changes = ap (λ (u : World). u.changes) is;
  hidden = ap (λ (u : World). u.hidden) is;
  work = ap (λ (u : World). u.work) is ∙ ap (λ bs. record w.work { batches = bs }) same;
  sent = ap (λ (u : World). u.sent) is;
  published = ap (λ (u : World). u.published) is;
  objects = ap (λ (u : World). u.objects) is;
}

answered :
    (id : String) (w : World) (r : ℕ × World)
    → claim_batches id (spent w) ≡ some r
    → Claims id w (pure (ltb 0 r.0) r.1)
unfolding pure
answered id w r h =
    let rows = claimed_rows id (spent w) r h in
    elim (Bool-cases (ltb 0 r.0)) [
      | inl some_rows ↦ rw some_rows (
          takes refl (λ none_there. absurd (ground (arith, rows.0)))
            (ap (λ (v : World). count (parseable id) v.work.batches) rows.1 ∙ none_left id w))
      | inr no_rows ↦
          let none_there : Taken id w.work = ground (arith, rows.0) in
          let same = update_where_none (parseable id) to_publishing w.work.batches none_there in
          rw no_rows (taken_before refl none_there (same_rows w r.1 _ rows.1 same))
    ]

pub claim_raw_batch_for_parsing-Claims :
    (id : String) (w : World) → Claims (trim_space id) w (claim_raw_batch_for_parsing id w)
unfolding claim_raw_batch_for_parsing
claim_raw_batch_for_parsing-Claims id w =
    Post-statement (Claims (trim_space id) w) _ _ _ w (refused _ refl (SameTables-spent w))
      (λ r took. answered (trim_space id) w r took)
