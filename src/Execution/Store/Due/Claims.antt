-- ===== src/Execution/Store/Due/Claims.antt =====
-- ClaimTarget: two schedulers that read the same due target do not both claim it.
use ingest_srv.Shared.{
  ℕ, ◌+◌, ◌*◌, ◌≤◌, ◌<◌, Bool, true, false, Option, some, List, ◌≡◌, ◌≢◌, refl, ap, ◌∙◌, sym, subst,
  arith, count, ltb, update_where, count-update_one, ℤ,
}
use ingest_srv.Model.{DataSource, CrawlTarget, CrawlMode}
use ingest_srv.Runtime.{World, Env, Outcome, ok, err, spent, pure}
use ingest_srv.Runtime.Steps.{Post-statement, Post-read}
use ingest_srv.Repository.Targets as Targets
use ingest_srv.Execution.Options.{StoreErr, claim_failed, ClaimOptions}
use ingest_srv.Execution.Store.Dispatch.Single.{Reads-boundary}
use ingest_srv.Execution.Store.Due.{claimable, claimed, claim_rows, claim_target}
use ingest_srv.Execution.Interval.{minute, compute_effective_interval}
use ingest_srv.Execution.Interval.Bounds.{
  Scheduled, unscheduled, every, effective_interval-Scheduled,
}

module _ (env : Env) (opt : ClaimOptions) where
  -- What a claim that answers has done.
  data Answers (w : World) (r : Outcome StoreErr Bool × World) : Type 0 where
    down : (e : StoreErr) → r.0 ≡ err e → Answers w r
    answers :
        r.0 ≡ ok (ltb 0 (count (claimable opt w.sources) w.targets))
        → r.1.targets
          ≡ update_where (claimable opt w.sources) (claimed opt (env.clock w.readings)) w.targets
        → Answers w r

  rows_claimed :
      (w : World) (r : ℕ × World)
      → claim_rows env opt w ≡ some r
      → (r.0 ≡ count (claimable opt w.sources) w.targets)
        × (r.1.targets
            ≡ update_where (claimable opt w.sources) (claimed opt (env.clock w.readings)) w.targets)
  unfolding claim_rows
  rows_claimed w r h = (ground arith, ground arith)

  claim-Answers : (w : World) → Answers w (claim_target env opt w)
  unfolding claim_target pure
  claim-Answers w =
      Post-statement (Answers w) claim_failed (claim_rows env opt) _ w (down claim_failed refl)
        (λ r took.
          let (n, rows) = rows_claimed (spent w) r took in
          Post-read (Answers w) _ r.1 (Reads-boundary claim_failed) (λ e v _. down e refl)
            (λ _ v same _. answers (ap (λ k. ok (ltb 0 k)) n) (same.targets ∙ rows)))

-- A claim that succeeds has found a row to claim.
won :
    (env : Env) (opt : ClaimOptions) (w : World) (r : Outcome StoreErr Bool × World)
    → Answers env opt w r
    → r.0 ≡ ok true
    → (0 < count (claimable opt w.sources) w.targets)
      × (r.1.targets
          ≡ update_where (claimable opt w.sources) (claimed opt (env.clock w.readings)) w.targets)
won env opt w r (down e answer) h = cc
won env opt w r (answers answer rows) h =
    (let e : ltb 0 (count (claimable opt w.sources) w.targets) ≡ true = cc in ground arith, rows)

lost :
    (env : Env) (opt : ClaimOptions) (w : World) (r : Outcome StoreErr Bool × World)
    → Answers env opt w r
    → count (claimable opt w.sources) w.targets ≡ 0
    → r.0 ≢ ok true
lost env opt w r (down e answer) none_left h = cc
lost env opt w r (answers answer rows) none_left h =
    let e : ltb 0 (count (claimable opt w.sources) w.targets) ≡ true = cc in ground arith

claimable-owned :
    (opt : ClaimOptions) (sources : List DataSource) (t : CrawlTarget)
    → claimable opt sources t ≡ true
    → Targets.owned opt.source_id opt.target_id t ≡ true
unfolding claimable
claimable-owned opt sources t h = ground arith

at_least_minute :
    {mode : Option CrawlMode} {n : ℤ} {o : Option ℕ} {interval : ℕ}
    → Scheduled mode n o
    → o ≡ some interval
    → minute ≤ interval
at_least_minute (unscheduled why is) h = cc
at_least_minute {interval} (every m n minutes mode given is low high near) h =
    let e : minutes * minute ≡ interval = cc in omega arith

not_again :
    (opt opt' : ClaimOptions) (sources : List DataSource) (now : ℕ) (t : CrawlTarget)
    → opt'.claimed_at < opt.next_crawl_at
    → claimable opt' sources (claimed opt now t) ≡ false
unfolding claimable claimed
not_again opt opt' sources now t later = ground arith

module _ (env : Env) (s : DataSource) (t : CrawlTarget) (now later : ℕ) (w v : World) where
  abbrev first_claim : ℕ → ClaimOptions
  first_claim interval = record {
    source_id = s.id;
    target_id = t.id;
    claimed_at = now;
    next_crawl_at = now + interval;
  }

  -- Where the heartbeat claims a target at `now`, for the interval that computeEffectiveInterval
  -- gives, no claim of that target succeeds at a time before a minute has passed, if its identifier
  -- is unique among the targets of its data source and the table of targets has not been changed
  -- since.
  pub claim_once :
      (interval next : ℕ)
      → compute_effective_interval s t ≡ some interval
      → count (Targets.owned s.id t.id) w.targets ≤ 1
      → (claim_target env (first_claim interval) w).0 ≡ ok true
      → v.targets ≡ (claim_target env (first_claim interval) w).1.targets
      → later < now + minute
      → (claim_target env
          (record { source_id = s.id; target_id = t.id; claimed_at = later; next_crawl_at = next })
          v).0
        ≢ ok true
  claim_once interval next is one first same soon =
      let opt' : ClaimOptions = record {
        source_id = s.id;
        target_id = t.id;
        claimed_at = later;
        next_crawl_at = next;
      } in
      let enough = at_least_minute (effective_interval-Scheduled s t) is in
      let (some_row, rows) = won env (first_claim interval) w _ (claim-Answers env _ w) first in
      lost env opt' v _ (claim-Answers env opt' v) (
        subst (λ ts. count (claimable opt' v.sources) ts ≡ 0) (sym (same ∙ rows))
          (count-update_one (Targets.owned s.id t.id) (claimable (first_claim interval) w.sources)
            (claimable opt' v.sources) (claimed (first_claim interval) (env.clock w.readings))
            (claimable-owned (first_claim interval) w.sources) (claimable-owned opt' v.sources)
            (λ x. not_again (first_claim interval) opt' v.sources _ x (omega arith)) w.targets one
            some_row))
