-- ===== src/Uap/Batch/Published.antt =====
-- publishRecord, the onRecord callback and kafkaPublishResult: what a publish status of a batch says
-- of the records.
use ingest_srv.Shared.{
  ℕ, ◌+◌, ◌≤◌, ◌<◌, Bool, true, false, Option, none, some, List, [], ◌∷◌, ◌≡◌, ◌↔◌, refl, subst,
  sym, ◌∙◌, ap, arith, String, length, length-map, map, is_some,
}
use ingest_srv.Model.{UapRecord, PublishStatus}
use ingest_srv.Runtime.{World, Outcome, ok, spent, pure, call, ◌>>=◌}
use ingest_srv.Uap.Types.{UapErr, ParseInput, PublishStats, UapServices}
use ingest_srv.Uap.Records.{with_ingest_attribution}
use ingest_srv.Uap.Batch.{
  lift, note_published, publish_with, publish_record, publish_records, publish_result, no_stats,
}

-- The records on top of those published before, the last one first.
abbrev pub on_top : List UapRecord → List UapRecord → List UapRecord
on_top [] old = old
on_top (r ∷ rs) old = on_top rs (r ∷ old)

length-on_top : (rs old : List UapRecord) → length (on_top rs old) ≡ length rs + length old
length-on_top [] old = omega arith
length-on_top (r ∷ rs) old = omega (arith, length-on_top rs (r ∷ old))

-- How a step of the publisher, with records to publish, changes the counts and the outside.
record Sends (there : Bool) (rs : List UapRecord) (s : PublishStats) (w : World) (s' : PublishStats)
    (w' : World) : Type 0 where
  absent : there ≡ false → (w'.published ≡ w.published) × (s'.failed_count ≡ s.failed_count)
  counted :
      there ≡ true
      → s'.success_count + s'.failed_count ≡ length rs + (s.success_count + s.failed_count)
  failures : s.failed_count ≤ s'.failed_count
  grown : length w'.published + s.success_count ≡ length w.published + s'.success_count
  complete : there ≡ true → s'.failed_count ≡ s.failed_count → w'.published ≡ on_top rs w.published

-- A run of the publisher that ends with the counts.
record Sent (there : Bool) (rs : List UapRecord) (s : PublishStats) (w : World)
    (r : Outcome UapErr PublishStats × World) : Type 0 where
  stats : PublishStats
  ends : r.0 ≡ ok stats
  sends : Sends there rs s w stats r.1

Sends-refl : (there : Bool) (s : PublishStats) (w : World) → Sends there [] s w s w
Sends-refl there s w = record {
  absent = λ h. (refl, refl);
  counted = λ h. omega arith;
  failures = omega arith;
  grown = refl;
  complete = λ h e. refl;
}

Sends-cons :
    {there : Bool} {r : UapRecord} {rs : List UapRecord} {s s' s'' : PublishStats}
    {w w' w'' : World}
    → Sends there (r ∷ []) s w s' w'
    → Sends there rs s' w' s'' w''
    → Sends there (r ∷ rs) s w s'' w''
Sends-cons {there} {r} {rs} {s} {s'} {s''} first rest = record {
  absent = λ h. ((rest.absent h).0 ∙ (first.absent h).0, (rest.absent h).1 ∙ (first.absent h).1);
  counted = λ h. omega (arith, first.counted h, rest.counted h);
  failures = omega (arith, first.failures, rest.failures);
  grown = omega (arith, first.grown, rest.grown);
  complete = λ h e.
      rest.complete h (omega (arith, e, first.failures, rest.failures))
      ∙ ap (on_top rs) (first.complete h (omega (arith, e, first.failures, rest.failures)));
}

module _ (sv : UapServices) where
  note_published-Sent :
      (o : Option String) (s : PublishStats) (r : UapRecord) (w : World)
      → Sent true (r ∷ []) s w (note_published sv s r o w)
  note_published-Sent none s r w = record {
    stats = _;
    ends = refl;
    sends = record {
      absent = λ h. cc;
      counted = λ h. omega arith;
      failures = omega arith;
      grown = omega arith;
      complete = λ h e. refl;
    };
  }
  note_published-Sent (some e) s r w = record {
    stats = _;
    ends = refl;
    sends = record {
      absent = λ h. cc;
      counted = λ h. omega arith;
      failures = omega arith;
      grown = omega arith;
      complete = λ h same. absurd (omega (arith, same));
    };
  }

  publish_with-Sent :
      (p : Option (UapRecord → World → Option String)) (s : PublishStats) (r : UapRecord)
      (w : World)
      → Sent (is_some p) (r ∷ []) s w (publish_with sv p s r w)
  unfolding call ◌>>=◌ pure
  publish_with-Sent none s r w = record {
    stats = s;
    ends = refl;
    sends = record {
      absent = λ h. (refl, refl);
      counted = λ h. cc;
      failures = omega arith;
      grown = refl;
      complete = λ h e. cc;
    };
  }
  publish_with-Sent (some p) s r w =
      let sent = note_published-Sent (p r w) s r (spent w) in
      record {
        stats = sent.stats;
        ends = sent.ends;
        sends = record {
          absent = sent.sends.absent;
          counted = sent.sends.counted;
          failures = sent.sends.failures;
          grown = sent.sends.grown;
          complete = sent.sends.complete;
        };
      }

  module _ (input : ParseInput) where
    abbrev pub attributed : List UapRecord → List UapRecord
    attributed rs = map (λ r. with_ingest_attribution sv r input) rs

    then_rest :
        {there : Bool} {r : UapRecord} {s : PublishStats} {w : World} (rs rs' : List UapRecord)
        (s' : PublishStats) (v : World) (o : Outcome UapErr PublishStats)
        → o ≡ ok s'
        → Sends there (r ∷ []) s w s' v
        → Sent there rs' s' v (publish_records sv input s' rs v)
        → Sent there (r ∷ rs') s w ((lift o >>= λ t. publish_records sv input t rs) v)
    unfolding ◌>>=◌
    then_rest {there} {r} {s} {w} rs rs' s' v o is first rest =
        subst (λ o'. Sent there (r ∷ rs') s w ((lift o' >>= λ t. publish_records sv input t rs) v))
          (sym is)
          (record { stats = rest.stats; ends = rest.ends; sends = Sends-cons first rest.sends })

    publish_records-Sent :
        (s : PublishStats) (rs : List UapRecord) (w : World)
        → Sent (is_some sv.publisher) (attributed rs) s w (publish_records sv input s rs w)
    unfolding publish_records publish_record pure ◌>>=◌
    publish_records-Sent s [] w = record { stats = s; ends = refl; sends = Sends-refl _ s w }
    publish_records-Sent s (r ∷ rs) w =
        let first = publish_with-Sent sv.publisher s (with_ingest_attribution sv r input) w in
        then_rest rs (attributed rs) first.stats
          (publish_with sv sv.publisher s (with_ingest_attribution sv r input) w).1
          (publish_with sv sv.publisher s (with_ingest_attribution sv r input) w).0 first.ends
          first.sends (publish_records-Sent first.stats rs _)

-- When kafkaPublishResult answers SUCCESS.
success_only :
    (enabled : Bool) (s : PublishStats) (total : ℕ)
    → (publish_result enabled s total).0 ≡ PublishStatus.success
    → (s.failed_count ≡ 0) × (total ≤ s.success_count) × ((0 < total) → enabled ≡ true)
unfolding publish_result
success_only enabled s total h = ground arith

success_when :
    (enabled : Bool) (s : PublishStats) (total : ℕ)
    → s.failed_count ≡ 0
    → total ≤ s.success_count
    → ((0 < total) → enabled ≡ true)
    → (publish_result enabled s total).0 ≡ PublishStatus.success
unfolding publish_result
success_when enabled s total none_failed enough there = ground (arith, there)

nothing_on_top : (rs old : List UapRecord) → (0 < length rs → false ≡ true) → old ≡ on_top rs old
nothing_on_top [] old none_there = refl
nothing_on_top (r ∷ rs) old none_there = let clash = none_there (omega arith) in cc

-- What a status says of a run that began without counts.
verdict :
    (there : Bool) (rs : List UapRecord) (s s' : PublishStats) (w w' : World)
    → Sends there rs s w s' w'
    → s.success_count ≡ 0
    → s.failed_count ≡ 0
    → ((publish_result there s' (length rs)).0 ≡ PublishStatus.success)
      ↔ (w'.published ≡ on_top rs w.published)
verdict true rs s s' w w' sends no_success no_failure = (
  (λ h.
      let facts = success_only true s' (length rs) h in
      sends.complete refl (facts.0 ∙ sym no_failure)),
  (λ same.
      let long = ap length same ∙ length-on_top rs w.published in
      success_when true s' (length rs)
        (omega (arith, long, sends.counted refl, sends.grown, no_success, no_failure))
        (omega (arith, long, sends.grown, no_success)) (λ some_records. refl)),
)
verdict false rs s s' w w' sends no_success no_failure = (
  (λ h.
      let facts = success_only false s' (length rs) h in
      (sends.absent refl).0 ∙ nothing_on_top rs w.published (facts.2)),
  (λ same.
      let long = ap length same ∙ length-on_top rs w.published in
      let still = ap length (sends.absent refl).0 in
      success_when false s' (length rs) ((sends.absent refl).1 ∙ no_failure)
        (omega (arith, long, still))
        (λ some_records. absurd (omega (arith, long, still, some_records)))),
)

-- Publishing the records of a parser ends with its counts, whatever the publisher answers, and the
-- publish status that follows from the counts is SUCCESS exactly when every record was published
-- with its attribution, once and in order.
pub published_all :
    (sv : UapServices) (input : ParseInput) (records : List UapRecord) (w : World)
    → (s : PublishStats) × ((publish_records sv input (no_stats sv input) records w).0 ≡ ok s)
      × (((publish_result (is_some sv.publisher) s (length records)).0 ≡ PublishStatus.success) ↔ (
          (publish_records sv input (no_stats sv input) records w).1.published
          ≡ on_top (attributed sv input records) w.published))
published_all sv input records w =
    let run = publish_records-Sent sv input (no_stats sv input) records w in
    (
      run.stats,
      run.ends,
      subst
          (λ n. ((publish_result (is_some sv.publisher) run.stats n).0 ≡ PublishStatus.success) ↔ (
            (publish_records sv input (no_stats sv input) records w).1.published
            ≡ on_top (attributed sv input records) w.published))
          (length-map (λ r. with_ingest_attribution sv r input) records)
          (verdict (is_some sv.publisher) (attributed sv input records) (no_stats sv input)
            run.stats w _ run.sends refl refl),
    )
