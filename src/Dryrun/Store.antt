-- ===== src/Dryrun/Store.antt =====
-- internal/dryrun/repository: the errors and options, and CompleteResult of postgre/dryrun.go with
-- applyResultUpdate of postgre/helpers.go. A nullable text is empty where it is NULL.
pub mod Completes
pub mod Unsent
use ingest_srv.Shared.{
  ℕ, String, Bool, true, false, Option, none, some, ◌==◌, ◌||◌, not, first, ℤ, is_negative, is_some,
  update_where, if◌then◌else◌,
}
use ingest_srv.Model.{
  DataSource, CrawlTarget, DryrunResult, DryrunStatus, SourceStatus, is_terminal_dryrun_status,
}
use ingest_srv.Runtime.{
  World, Env, Exec, ◌>>=◌, ◌>>◌, pure, fail, statement, query, reading, transaction,
}
use ingest_srv.Repository.Sources as Sources
use ingest_srv.Repository.Targets as Targets

pub data ResultErr : Type 0 where
  result_insert_failed result_update_failed result_get_failed result_list_failed result_not_found :
      ResultErr

-- The statuses are texts in the source, and the callers give them as those of a dry run.
pub record CompleteResultOptions : Type 0 where
  pub id : String
  pub status : DryrunStatus
  pub sample_count : ℕ
  pub completed_at : Option ℕ
  pub total_found : Option ℤ
  pub sample_data : String
  pub warnings : String
  pub error_message : String
  pub activate_target : Bool

abbrev pub find_result : String → World → Option DryrunResult
find_result id w = first (λ d. d.id == id) w.dryruns

abbrev pub or_old {ℓ} : {A : Type ℓ} → Option A → Option A → Option A
or_old none old = old
or_old (some a) old = some a

abbrev pub or_old_text : String → String → String
or_old_text text old = if text == "" then old else text

-- The row that applyResultUpdate writes; `at` is the time of completion, if it sets one.
unfoldable pub apply_result : CompleteResultOptions → Option ℕ → DryrunResult → DryrunResult
apply_result opt at d = record d {
  status = opt.status;
  sample_count = opt.sample_count;
  completed_at = or_old at d.completed_at;
  total_found = or_old opt.total_found d.total_found;
  sample_data = or_old_text opt.sample_data d.sample_data;
  warnings = or_old_text opt.warnings d.warnings;
  error_message = or_old_text opt.error_message d.error_message;
}

abbrev pub total_ok : Option ℤ → Bool
total_ok none = true
total_ok (some n) = not (is_negative n)

-- UPDATE … WHERE id = row.id, with the CHECK constraints.
unfoldable pub save_result : DryrunResult → World → Option (Unit {0} × World)
unfolding update_where
save_result row w =
    if total_ok row.total_found
    then some (tt, record w { dryruns = update_where (λ d. d.id == row.id) (λ d. row) w.dryruns })
    else none

-- A PENDING or READY data source follows the dry run.
unfoldable pub status_after : DryrunStatus → SourceStatus → SourceStatus
status_after DryrunStatus.failed SourceStatus.pending = SourceStatus.pending
status_after DryrunStatus.failed SourceStatus.ready = SourceStatus.pending
status_after _ SourceStatus.pending = SourceStatus.ready
status_after _ SourceStatus.ready = SourceStatus.ready
status_after _ status = status

unfoldable pub sync_source : CompleteResultOptions → String → DataSource → DataSource
unfolding status_after
sync_source opt result_id s = record s {
  dryrun_status = opt.status;
  dryrun_last_result_id = result_id;
  status = status_after opt.status s.status;
}

abbrev pub found_result : Option DryrunResult → Exec ResultErr DryrunResult
found_result none = fail result_not_found
found_result (some d) = pure d

abbrev pub found_source : Option DataSource → Exec ResultErr DataSource
found_source none = fail result_not_found
found_source (some s) = if is_some s.deleted_at then fail result_not_found else pure s

-- BeginTx and Commit: they can fail, and do nothing to the tables.
abbrev pub boundary : Exec ResultErr (Unit {0})
boundary = query result_update_failed (λ w. tt)

module _ (env : Env) where
  unfoldable pub completion_time : Option ℕ → DryrunStatus → Exec ResultErr (Option ℕ)
  unfolding is_terminal_dryrun_status
  completion_time (some at) status = pure (some at)
  completion_time none status =
      if not (is_terminal_dryrun_status status)
      then pure none
      else do now ← reading env; pure (some now)

  abbrev pub activate_row : Option CrawlTarget → Exec ResultErr (Unit {0})
  activate_row none = pure tt
  activate_row (some t) = if t.is_active then pure tt else do
    statement result_update_failed (Targets.save env (record t { is_active = true }))
    pure tt

  abbrev pub activate_if : Bool → String → Exec ResultErr (Unit {0})
  activate_if activates target_id = if not activates || target_id == "" then pure tt else do
    found ← query result_update_failed (λ w. first (λ t. t.id == target_id) w.targets)
    activate_row found

  unfoldable pub complete_body : CompleteResultOptions → Exec ResultErr (DryrunResult × DataSource)
  unfolding apply_result sync_source
  complete_body opt = do
    boundary
    found ← query result_update_failed (find_result opt.id)
    old ← found_result found
    at ← completion_time opt.completed_at opt.status
    statement result_update_failed (save_result (apply_result opt at old))
    owner ← query result_update_failed (λ w. Sources.find old.source_id w.sources)
    source ← found_source owner
    saved ← statement result_update_failed (Sources.save env (some (sync_source opt old.id source)))
    activate_if opt.activate_target old.target_id
    boundary
    pure (apply_result opt at old, saved)

  unfoldable pub complete_result :
      CompleteResultOptions → Exec ResultErr (DryrunResult × DataSource)
  unfolding complete_body
  complete_result opt = transaction (complete_body opt)
