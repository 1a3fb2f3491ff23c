-- ===== src/Execution/Cron/Tally.antt =====
-- DispatchDueTargets: it never panics, and every due target is counted once.
use ingest_srv.Shared.{
  ℕ, suc, ◌+◌, ◌≤◌, String, Bool, true, false, Option, none, some, List, [], ◌∷◌, ◌≡◌, ◌≢◌, ◌==◌,
  ◌⊎◌, inl, inr, refl, ◌∙◌, arith, is_some, length, trim_space,
}
use ingest_srv.Model.{CrawlTarget}
use ingest_srv.Runtime.{World, Env, Exec, Outcome, ok, err, panic, ◌>>=◌, pure}
use ingest_srv.Runtime.Steps.{
  Reads-pure, Reads-fail, Reads-query, Reads-call, Reads-check, Reads-wrap, Post-bind, Post-attempt,
  Post-read, Post-check,
}
use ingest_srv.Runtime.Calm.{Calm, Calm-Reads, Calm-bind, Calm-statement, Calm-if}
use ingest_srv.Execution.Options.{StoreErr, DispatchContext, ClaimOptions, ReleaseOptions}
use ingest_srv.Execution.Services.{Services, ProjectDetail, Reply}
use ingest_srv.Execution.Types.{
  Err, dispatch_not_allowed, DispatchSpec, DueInput, DueOutput, DispatchTargetOutput,
}
use ingest_srv.Execution.Store.Dispatch.Single.{Reads-boundary}
use ingest_srv.Execution.Store.Due.{claim_target, release_claim_target, release_row}
use ingest_srv.Execution.Running.Dispatching.{
  Reads-domain_code, Reads-get_dispatch_context, Reads-list_due_targets,
}
use ingest_srv.Execution.Dispatch.{validate_dispatch_context, dispatch_prepared}
use ingest_srv.Execution.Dispatch.Quiet.{Calm-dispatch_prepared, Calm-or_now}
use ingest_srv.Execution.Specs.Tasks.{build_dispatch_specs-calm}
use ingest_srv.Execution.Cron.{
  one_failed, one_skipped, one_claimed, one_dispatched, detail_of,
  resolve_scheduled_dispatch_project_state, validate_scheduled_dispatch_context, release,
  after_dispatch, after_reload, after_claim, with_interval, with_specs, dispatch_due_target,
  dispatch_all, dispatch_due_targets,
}

Calm-claim_target : (env : Env) (opt : ClaimOptions) → Calm (claim_target env opt)
unfolding claim_target
Calm-claim_target env opt =
    Calm-bind _ _ (Calm-statement _ _)
      (λ n. Calm-bind _ _ (Calm-Reads (Reads-boundary _)) (λ _. Calm-Reads (Reads-pure _)))

Calm-release_row : (env : Env) (row : Option CrawlTarget) → Calm (release_row env row)
Calm-release_row env none = Calm-Reads (Reads-pure _)
Calm-release_row env (some t) = Calm-bind _ _ (Calm-statement _ _) (λ _. Calm-Reads (Reads-pure _))

Calm-release_claim : (env : Env) (opt : ReleaseOptions) → Calm (release_claim_target env opt)
unfolding release_claim_target
Calm-release_claim env opt = Calm-if _ _ _ (Calm-Reads (Reads-pure _)) (
    Calm-if _ _ _ (Calm-Reads (Reads-pure _))
      (Calm-bind _ _ (Calm-Reads (Reads-query _ _)) (Calm-release_row env)))

valid_mode :
    (c : DispatchContext) → validate_dispatch_context c ≡ none → is_some c.source.crawl_mode ≡ true
unfolding validate_dispatch_context
valid_mode c h = ground arith

abbrev counted : DueOutput → ℕ
counted out = out.dispatched_count + out.skipped_race_count + out.failed_count

-- The counters after `n` more targets.
pub record Counts (n : ℕ) (out out' : DueOutput) : Type 0 where
  pub due : out'.due_count ≡ out.due_count
  pub each_once : counted out' ≡ counted out + n
  pub claims : out'.claimed_count ≤ out.claimed_count + n
  pub dispatches :
      out'.dispatched_count + out.claimed_count ≤ out.dispatched_count + out'.claimed_count

pub data Tallies (n : ℕ) (out : DueOutput) (r : Outcome Err DueOutput × World) : Type 0 where
  tallied : (out' : DueOutput) → r.0 ≡ ok out' → Counts n out out' → Tallies n out r

failed-Counts : (out : DueOutput) → Counts 1 out (one_failed out)
failed-Counts out = omega arith

skipped-Counts : (out : DueOutput) → Counts 1 out (one_skipped out)
skipped-Counts out = omega arith

claimed_failed-Counts : (out : DueOutput) → Counts 1 out (one_failed (one_claimed out))
claimed_failed-Counts out = omega arith

claimed_skipped-Counts : (out : DueOutput) → Counts 1 out (one_skipped (one_claimed out))
claimed_skipped-Counts out = omega arith

dispatched-Counts : (out : DueOutput) → Counts 1 out (one_dispatched (one_claimed out))
dispatched-Counts out = omega arith

Counts-add : (n : ℕ) (a b c : DueOutput) → Counts 1 a b → Counts n b c → Counts (suc n) a c
Counts-add n a b c p q = record {
  due = q.due ∙ p.due;
  each_once = omega (arith, p.each_once, q.each_once);
  claims = omega (arith, p.claims, q.claims);
  dispatches = omega (arith, p.dispatches, q.dispatches);
}

joined :
    (n : ℕ) (a b : DueOutput) (r : Outcome Err DueOutput × World)
    → Counts 1 a b
    → Tallies n b r
    → Tallies (suc n) a r
joined n a b r p (tallied c is q) = tallied c is (Counts-add n a b c p q)

-- How a heartbeat ends.
pub data Beats (r : Outcome Err DueOutput × World) : Type 0 where
  unlisted : (e : Err) → r.0 ≡ err e → Beats r
  beaten :
      (out : DueOutput)
      → r.0 ≡ ok out
      → counted out ≡ out.due_count
      → out.dispatched_count ≤ out.claimed_count
      → out.claimed_count ≤ out.due_count
      → Beats r

summed :
    (n : ℕ) (r : Outcome Err DueOutput × World)
    → Tallies n
        (record {
          due_count = n;
          claimed_count = 0;
          dispatched_count = 0;
          skipped_race_count = 0;
          failed_count = 0;
        })
        r
    → Beats r
summed n r (tallied out is h) =
    beaten out is (omega (arith, h.due, h.each_once)) (omega (arith, h.dispatches))
      (omega (arith, h.due, h.claims))

module _ (sv : Services) (client : is_some sv.project ≡ true) where
  Calm-detail_of :
      (p : Option (String → World → Reply ProjectDetail)) (id : String)
      → is_some p ≡ true
      → Calm (detail_of sv p id)
  Calm-detail_of none id has = cc
  Calm-detail_of (some detail) id has = record {
    calm = (Calm-Reads (Reads-call {E = Err} (detail id))).calm;
  }

  Calm-validate : (c : DispatchContext) → Calm (validate_scheduled_dispatch_context sv c)
  unfolding validate_scheduled_dispatch_context resolve_scheduled_dispatch_project_state
  Calm-validate c = Calm-bind _ _ (Calm-Reads (Reads-check _)) (λ _.
      Calm-bind _ _ (Calm-Reads (Reads-check _)) (λ _.
        Calm-if (trim_space c.source.project_id == "") _ _ (Calm-Reads (Reads-fail _)) (
          Calm-bind _ _ (Calm-detail_of sv.project _ client) (λ detail.
            Calm-bind _ _ (Calm-Reads (Reads-check _)) (λ _.
              Calm-bind _ _ (Calm-Reads (Reads-domain_code sv _))
                (λ code. Calm-Reads (Reads-check _)))))))

  -- A context that is valid for the scheduler has a crawl mode.
  validated :
      (c : DispatchContext) (w : World)
      → (validate_scheduled_dispatch_context sv c w).0 ≡ ok tt
      → is_some c.source.crawl_mode ≡ true
  unfolding validate_scheduled_dispatch_context
  validated c w =
      Post-check
        (λ (r : Outcome Err (Unit {0}) × World). r.0 ≡ ok tt → is_some c.source.crawl_mode ≡ true) _
        _ w (λ e _ h. cc) (λ valid _. valid_mode c valid)

  release-Tallies :
      (d : DispatchContext) (a out : DueOutput) (w : World)
      → Counts 1 a out
      → Tallies 1 a (release sv d out w)
  unfolding pure
  release-Tallies d a out w h =
      Post-attempt (Tallies 1 a) _ _ w ((Calm-release_claim sv.base _).calm w)
        (λ _ _. tallied out refl h) (λ _ _. tallied out refl h)

  after_dispatch-Tallies :
      (d : DispatchContext) (a : DueOutput) (w : World) (r : DispatchTargetOutput ⊎ Err)
      → Tallies 1 a (after_dispatch sv d (one_claimed a) r w)
  unfolding pure
  after_dispatch-Tallies d a w (inl _) = tallied _ refl (dispatched-Counts a)
  after_dispatch-Tallies d a w (inr dispatch_not_allowed) =
      tallied _ refl (claimed_skipped-Counts a)
  after_dispatch-Tallies d a w (inr _) = release-Tallies d a _ w (claimed_failed-Counts a)

  module _ (d : DispatchContext) (specs : List DispatchSpec) (now : ℕ) (cron_expr : String) where
    after_reload-Tallies :
        (a : DueOutput) (w : World) (r : DispatchContext ⊎ StoreErr)
        → Tallies 1 a (after_reload sv d specs now cron_expr (one_claimed a) r w)
    after_reload-Tallies a w (inr e) = release-Tallies d a _ w (claimed_skipped-Counts a)
    after_reload-Tallies a w (inl current) =
        Post-attempt (Tallies 1 a) _ _ w ((Calm-validate current).calm w)
          (λ _ valid.
            Post-attempt (Tallies 1 a) (dispatch_prepared sv current specs _) _ _
              ((Calm-dispatch_prepared sv current specs _ (validated current w valid)).calm _)
              (λ out _. after_dispatch-Tallies d a _ (inl out))
              (λ e _. after_dispatch-Tallies d a _ (inr e)))
          (λ e _. release-Tallies d a _ _ (claimed_skipped-Counts a))

    after_claim-Tallies :
        (a : DueOutput) (w : World) (r : Bool ⊎ StoreErr)
        → Tallies 1 a (after_claim sv d specs now cron_expr a r w)
    unfolding pure
    after_claim-Tallies a w (inr e) = tallied _ refl (failed-Counts a)
    after_claim-Tallies a w (inl false) = tallied _ refl (skipped-Counts a)
    after_claim-Tallies a w (inl true) =
        Post-attempt (Tallies 1 a) _ _ w ((Calm-Reads (Reads-get_dispatch_context _ _)).calm w)
          (λ current _. after_reload-Tallies a _ (inl current))
          (λ e _. after_reload-Tallies a _ (inr e))

    with_interval-Tallies :
        (a : DueOutput) (w : World) (interval : Option ℕ)
        → Tallies 1 a (with_interval sv d specs now cron_expr a interval w)
    unfolding pure
    with_interval-Tallies a w none = tallied _ refl (failed-Counts a)
    with_interval-Tallies a w (some interval) =
        Post-attempt (Tallies 1 a) _ _ w ((Calm-claim_target sv.base _).calm w)
          (λ b _. after_claim-Tallies a _ (inl b)) (λ e _. after_claim-Tallies a _ (inr e))

  with_specs-Tallies :
      (d : DispatchContext) (now : ℕ) (cron_expr : String) (a : DueOutput) (w : World)
      (r : Outcome Err (List DispatchSpec))
      → r ≢ panic
      → Tallies 1 a (with_specs sv d now cron_expr a r w)
  unfolding pure
  with_specs-Tallies d now cron_expr a w (ok specs) calm =
      with_interval-Tallies d specs now cron_expr a w _
  with_specs-Tallies d now cron_expr a w (err e) calm = tallied _ refl (failed-Counts a)
  with_specs-Tallies d now cron_expr a w panic calm = absurd (calm refl)

  due_target-Tallies :
      (now : ℕ) (cron_expr : String) (d : DispatchContext) (a : DueOutput) (w : World)
      → Tallies 1 a (dispatch_due_target sv now cron_expr d a w)
  unfolding dispatch_due_target pure
  due_target-Tallies now cron_expr d a w =
      Post-attempt (Tallies 1 a) _ _ w ((Calm-validate d).calm w)
        (λ _ _.
          with_specs-Tallies d now cron_expr a _ _ (build_dispatch_specs-calm sv d.source d.target))
        (λ e _. tallied _ refl (failed-Counts a))

  further :
      (n : ℕ) (now : ℕ) (cron_expr : String) (ds : List DispatchContext) (a : DueOutput) (w : World)
      (m : Exec Err DueOutput)
      → Tallies 1 a (m w)
      → ((b : DueOutput) (v : World) → Tallies n b (dispatch_all sv now cron_expr ds b v))
      → Tallies (suc n) a ((m >>= dispatch_all sv now cron_expr ds) w)
  unfolding ◌>>=◌
  further n now cron_expr ds a w m (tallied b is p) rest = rw is (joined n a b _ p (rest b (m w).1))

  all-Tallies :
      (now : ℕ) (cron_expr : String) (ds : List DispatchContext) (a : DueOutput) (w : World)
      → Tallies (length ds) a (dispatch_all sv now cron_expr ds a w)
  unfolding dispatch_all pure
  all-Tallies now cron_expr [] a w = tallied a refl (omega arith)
  all-Tallies now cron_expr (d ∷ ds) a w =
      further (length ds) now cron_expr ds a w (dispatch_due_target sv now cron_expr d a)
        (due_target-Tallies now cron_expr d a w) (λ b v. all-Tallies now cron_expr ds b v)

  -- Where the project client is there, DispatchDueTargets never panics: it returns an error, or
  -- counters of which the dispatched, the skipped and the failed targets add up to the due ones, the
  -- claimed ones are at most the due ones, and the dispatched ones at most the claimed ones.
  pub dispatch_due_targets-Beats :
      (input : DueInput) (w : World) → Beats (dispatch_due_targets sv input w)
  unfolding dispatch_due_targets
  dispatch_due_targets-Beats input w =
      Post-bind Beats _ _ w (λ e _. unlisted e refl)
        (λ p. absurd ((Calm-or_now sv input.now).calm w p))
        (λ now _.
          Post-read Beats _ _ (Reads-wrap _ _ (Reads-list_due_targets now input.limit))
            (λ e v _. unlisted e refl)
            (λ due v _ _. summed (length due) _ (all-Tallies now input.cron_expr due _ v)))
