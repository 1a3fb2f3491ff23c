-- ===== src/Datasource/Readiness/Counts.antt =====
-- What the report of GetActivationReadiness counts.
use ingest_srv.Shared.{ℕ, ◌+◌, String, Bool, true, false, ◌&&◌, not, ◌≡◌, length, count, any, ltb}
use ingest_srv.Runtime.{World, Env, Outcome, ok}
use ingest_srv.Runtime.Steps.{Reads, Reads-query}
use ingest_srv.Repository.Sources.{list_data_sources}
use ingest_srv.Datasource.Types.{
  Err, ReadinessError, passive_unconfirmed, active_target_required, ReadinessOutput,
}
use ingest_srv.Datasource.Readiness.{Tally}

-- An active crawl source without an active target.
abbrev pub is_target_required : ReadinessError → Bool
is_target_required (active_target_required id) = true
is_target_required _ = false

abbrev pub is_unconfirmed : ReadinessError → Bool
is_unconfirmed (passive_unconfirmed id) = true
is_unconfirmed _ = false

-- After n sources: no dry run is counted, and each source is eligible or has one error.
record Counted (n : ℕ) (t : Tally) : Type 0 where
  missing : t.missing_target_dryrun_count ≡ 0
  failed : t.failed_target_dryrun_count ≡ 0
  unconfirmed : t.passive_unconfirmed_count ≡ count is_unconfirmed t.errors
  blocking : t.blocking ≡ any is_target_required t.errors
  total : t.eligible + length t.errors ≡ n

-- What the report says, from its list of errors alone: each data source is eligible or has one error,
-- so one is eligible if there are fewer errors than data sources.
pub record Explained (out : ReadinessOutput) : Type 0 where
  pub missing : out.missing_target_dryrun_count ≡ 0
  pub failed : out.failed_target_dryrun_count ≡ 0
  pub unconfirmed : out.passive_unconfirmed_count ≡ count is_unconfirmed out.errors
  pub proceeds :
      out.can_proceed
      ≡ (ltb (length out.errors) out.data_source_count && not (any is_target_required out.errors))

module _ (env : Env) where
  abbrev Answers : ℕ → Outcome Err Tally × World → Type 0
  Answers n r = (t : Tally) → r.0 ≡ ok t → Counted n t

  abbrev Reports : Outcome Err ReadinessOutput × World → Type 0
  Reports r = (out : ReadinessOutput) → r.0 ≡ ok out → Explained out

  pub Reads-sources : (id : String) → Reads (list_data_sources env id)
  unfolding list_data_sources
  Reads-sources id = Reads-query _ _
