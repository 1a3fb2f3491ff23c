-- ===== src/Datasource/Lifecycle/Completes.antt =====
-- What PauseDataSource does where nothing fails.
use ingest_srv.Shared.{
  ℕ, suc, String, true, false, none, some, List, [], ◌≡◌, ◌∙◌, refl, ap, arith, trim_space,
  is_blank, eq_iff,
}
use ingest_srv.Model.{DataSource, SourceStatus}
use ingest_srv.Runtime.{World, Env, ok, ◌>>=◌, pure, fail, check, wrap, statement, query, reading}
use ingest_srv.Repository.Sources.{
  find, live, save, replace, row_ok, stamp, apply_options, detail_data_source, update_data_source,
}
use ingest_srv.Repository.Sources.Rows.{find-id, find-replace}
use ingest_srv.Datasource.Validate.{valid_data_source_id}
use ingest_srv.Datasource.Lifecycle.{pause_data_source}

-- No failure is scheduled.
abbrev pub IsQuiet : World → Type 0
IsQuiet w = w.faults ≡ []

-- The row that PauseDataSource leaves.
abbrev pub paused_row : DataSource → (paused updated : ℕ) → DataSource
paused_row s paused updated = record s {
  status = SourceStatus.paused;
  paused_at = some paused;
  updated_at = updated;
}

-- The constraints of an active row hold of the paused one.
row_ok-paused :
    (s : DataSource) (paused updated : ℕ)
    → row_ok s ≡ true
    → s.status ≡ SourceStatus.active
    → row_ok (paused_row s paused updated) ≡ true
unfolding row_ok
row_ok-paused s paused updated good active = ground arith

shown_row : (s : DataSource) → s.deleted_at ≡ none → live (some s) ≡ some s
shown_row s undeleted = rw undeleted refl

found_again :
    (r : DataSource) (id : String) (rows : List DataSource) {s : DataSource}
    → r.id ≡ id
    → find id rows ≡ some s
    → find id (replace r rows) ≡ some r
found_again r id rows key here = find-replace id r rows ∙ ground (arith, key, here, eq_iff r.id id)

module _ (env : Env) (id : String) (w : World) (s : DataSource) where
  pause_runs :
      IsQuiet w
      → is_blank id ≡ false
      → live (find (trim_space id) w.sources) ≡ some s
      → find s.id w.sources ≡ some s
      → s.status ≡ SourceStatus.active
      → row_ok s ≡ true
      → let r = paused_row s (env.clock w.readings) (env.clock (suc w.readings)) in
        ((pause_data_source env id w).0 ≡ ok (some r))
        × ((pause_data_source env id w).1.sources ≡ replace r w.sources)
  unfolding pause_data_source ◌>>=◌ check wrap pure fail valid_data_source_id detail_data_source
      update_data_source query statement reading save apply_options stamp
  pause_runs quiet given here again active good =
      let accepted =
        row_ok-paused s (env.clock w.readings) (env.clock (suc w.readings)) good active in
      rw (given, quiet, here, active) (rw again (rw accepted (refl, refl)))

  is_live :
      find (trim_space id) w.sources ≡ some s
      → s.deleted_at ≡ none
      → live (find (trim_space id) w.sources) ≡ some s
  is_live here undeleted = rw here (shown_row s undeleted)

  -- Where no failure is scheduled, PauseDataSource of an ACTIVE data source that is not deleted and
  -- that satisfies the constraints of its table succeeds: it returns the row with the status PAUSED,
  -- the time of the pause and the time of the write, and the table has that row.
  pub pause-completes :
      IsQuiet w
      → is_blank id ≡ false
      → find (trim_space id) w.sources ≡ some s
      → s.deleted_at ≡ none
      → s.status ≡ SourceStatus.active
      → row_ok s ≡ true
      → let r = paused_row s (env.clock w.readings) (env.clock (suc w.readings)) in
        ((pause_data_source env id w).0 ≡ ok (some r))
        × (find (trim_space id) (pause_data_source env id w).1.sources ≡ some r)
  pause-completes quiet given here undeleted active good =
      let key = find-id (trim_space id) w.sources here in
      let again = ap (λ i. find i w.sources) key ∙ here in
      let (answer, rows) = pause_runs quiet given (is_live here undeleted) again active good in
      (answer, ap (find (trim_space id)) rows ∙ found_again _ (trim_space id) w.sources key here)
