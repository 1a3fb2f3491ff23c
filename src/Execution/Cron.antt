-- ===== src/Execution/Cron.antt =====
-- usecase/cron.go: one heartbeat of the scheduler, with the guards of usecase/helpers.go that it adds.
pub mod Tally
use ingest_srv.Shared.{
  ℕ, ◌+◌, String, Bool, true, false, Option, none, some, List, [], ◌∷◌, ◌==◌, ◌⊎◌, inl, inr, length,
  nat_eq, trim_space, if◌then◌else◌,
}
use ingest_srv.Model.{SourceStatus, scheduled, is_status}
use ingest_srv.Runtime.{
  World, Exec, Outcome, ok, err, panic, ◌>>=◌, ◌>>◌, pure, fail, check, wrap, reading, attempt,
  call,
}
use ingest_srv.Execution.Options.{StoreErr, DispatchContext, ClaimOptions, ReleaseOptions}
use ingest_srv.Execution.Services.{
  Services, ProjectStatus, ProjectDetail, active, Reply, answer, failure,
}
use ingest_srv.Execution.Store.Due.{list_due_targets, claim_target, release_claim_target}
use ingest_srv.Execution.Store.Dispatch.{get_dispatch_context}
use ingest_srv.Execution.Types.{
  Err, dispatch_not_allowed, dispatch_failed, DispatchTargetInput, DispatchSpec,
  DispatchTargetOutput, DueInput, DueOutput,
}
use ingest_srv.Execution.Interval.{compute_effective_interval}
use ingest_srv.Execution.Specs.{build_dispatch_specs}
use ingest_srv.Execution.Dispatch.{
  validate_dispatch_context, resolve_project_domain_type_code, dispatch_prepared, or_now,
}

abbrev pub one_failed : DueOutput → DueOutput
one_failed out = record out { failed_count = out.failed_count + 1 }

abbrev pub one_skipped : DueOutput → DueOutput
one_skipped out = record out { skipped_race_count = out.skipped_race_count + 1 }

abbrev pub one_claimed : DueOutput → DueOutput
one_claimed out = record out { claimed_count = out.claimed_count + 1 }

abbrev pub one_dispatched : DueOutput → DueOutput
one_dispatched out = record out { dispatched_count = out.dispatched_count + 1 }

abbrev pub release_options : DispatchContext → ReleaseOptions
release_options d = record { source_id = d.source.id; target_id = d.target.id }

abbrev pub is_live : Reply ProjectDetail → Option Err
is_live (answer d) = elim d.status [ active ↦ none | _ ↦ some dispatch_not_allowed ]
is_live (failure e) = some dispatch_not_allowed

abbrev pub has_code : Reply String → Option Err
has_code (answer code) = none
has_code (failure e) = some dispatch_not_allowed

module _ (sv : Services) where
  abbrev pub detail_of :
      Option (String → World → Reply ProjectDetail) → String → Exec Err (Reply ProjectDetail)
  detail_of none id w = (panic, w)
  detail_of (some detail) id w = call (detail id) w

  -- Without a project client the call dereferences nil, which panics.
  unfoldable pub resolve_scheduled_dispatch_project_state : DispatchContext → Exec Err (Unit {0})
  unfolding trim_space
  resolve_scheduled_dispatch_project_state c =
      if trim_space c.source.project_id == "" then fail dispatch_not_allowed else do
        detail ← detail_of sv.project (trim_space c.source.project_id)
        check (is_live detail)
        code ← resolve_project_domain_type_code sv (trim_space c.source.project_id)
        check (has_code code)

  unfoldable pub validate_scheduled_dispatch_context : DispatchContext → Exec Err (Unit {0})
  unfolding validate_dispatch_context
  validate_scheduled_dispatch_context c = do
    check (validate_dispatch_context c)
    check
        (if is_status SourceStatus.active c.source.status then none else some dispatch_not_allowed)
    resolve_scheduled_dispatch_project_state c

  abbrev pub input_of : DispatchContext → ℕ → String → DispatchTargetInput
  input_of d now cron_expr = record {
    data_source_id = d.source.id;
    target_id = d.target.id;
    trigger_type = some scheduled;
    scheduled_for = now;
    requested_at = now;
    cron_expr = cron_expr;
  }

  abbrev pub release : DispatchContext → DueOutput → Exec Err DueOutput
  release d out = do attempt (release_claim_target sv.base (release_options d)); pure out

  -- A claim is not released where a job of the target is still running.
  abbrev pub after_dispatch :
      DispatchContext → DueOutput → DispatchTargetOutput ⊎ Err → Exec Err DueOutput
  after_dispatch d out (inl _) = pure (one_dispatched out)
  after_dispatch d out (inr dispatch_not_allowed) = pure (one_skipped out)
  after_dispatch d out (inr _) = release d (one_failed out)

  abbrev pub after_validate :
      DispatchContext
      → List DispatchSpec
      → ℕ
      → String
      → DueOutput
      → DispatchContext
      → Unit {0} ⊎ Err
      → Exec Err DueOutput
  after_validate d specs now cron_expr out current (inl _) = do
    result ← attempt (dispatch_prepared sv current specs (input_of d now cron_expr))
    after_dispatch d out result
  after_validate d specs now cron_expr out current (inr e) = release d (one_skipped out)

  abbrev pub after_reload :
      DispatchContext
      → List DispatchSpec
      → ℕ
      → String
      → DueOutput
      → DispatchContext ⊎ StoreErr
      → Exec Err DueOutput
  after_reload d specs now cron_expr out (inl current) = do
    valid ← attempt (validate_scheduled_dispatch_context current)
    after_validate d specs now cron_expr out current valid
  after_reload d specs now cron_expr out (inr e) = release d (one_skipped out)

  abbrev pub after_claim :
      DispatchContext
      → List DispatchSpec
      → ℕ
      → String
      → DueOutput
      → Bool ⊎ StoreErr
      → Exec Err DueOutput
  after_claim d specs now cron_expr out (inr e) = pure (one_failed out)
  after_claim d specs now cron_expr out (inl false) = pure (one_skipped out)
  after_claim d specs now cron_expr out (inl true) = do
    current ← attempt (get_dispatch_context d.source.id d.target.id)
    after_reload d specs now cron_expr (one_claimed out) current

  abbrev pub with_interval :
      DispatchContext → List DispatchSpec → ℕ → String → DueOutput → Option ℕ → Exec Err DueOutput
  with_interval d specs now cron_expr out none = pure (one_failed out)
  with_interval d specs now cron_expr out (some interval) = do
    claimed ← attempt (
        claim_target sv.base (record {
          source_id = d.source.id;
          target_id = d.target.id;
          claimed_at = now;
          next_crawl_at = now + interval;
        }))
    after_claim d specs now cron_expr out claimed

  abbrev pub with_specs :
      DispatchContext
      → ℕ
      → String
      → DueOutput
      → Outcome Err (List DispatchSpec)
      → Exec Err DueOutput
  with_specs d now cron_expr out (ok specs) =
      with_interval d specs now cron_expr out (compute_effective_interval d.source d.target)
  with_specs d now cron_expr out (err e) = pure (one_failed out)
  with_specs d now cron_expr out panic = λ w. (panic, w)

  abbrev pub if_valid :
      DispatchContext → ℕ → String → DueOutput → Unit {0} ⊎ Err → Exec Err DueOutput
  if_valid d now cron_expr out (inl _) =
      with_specs d now cron_expr out (build_dispatch_specs sv d.source d.target)
  if_valid d now cron_expr out (inr e) = pure (one_failed out)

  -- The body of the loop, from the counters to the counters.
  unfoldable pub dispatch_due_target : ℕ → String → DispatchContext → DueOutput → Exec Err DueOutput
  unfolding compute_effective_interval
  dispatch_due_target now cron_expr d out = do
    valid ← attempt (validate_scheduled_dispatch_context d)
    if_valid d now cron_expr out valid

  unfoldable pub dispatch_all : ℕ → String → List DispatchContext → DueOutput → Exec Err DueOutput
  dispatch_all now cron_expr [] out = pure out
  dispatch_all now cron_expr (d ∷ ds) out = do
    out' ← dispatch_due_target now cron_expr d out
    dispatch_all now cron_expr ds out'

  abbrev pub no_counts : ℕ → DueOutput
  no_counts due = record {
    due_count = due;
    claimed_count = 0;
    dispatched_count = 0;
    skipped_race_count = 0;
    failed_count = 0;
  }

  unfoldable pub dispatch_due_targets : DueInput → Exec Err DueOutput
  dispatch_due_targets input = do
    now ← or_now sv.base input.now
    due ← wrap (λ e. dispatch_failed) (list_due_targets now input.limit)
    dispatch_all now input.cron_expr due (no_counts (length due))
