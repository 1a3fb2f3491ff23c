-- ===== src/Repository/Sources/Writes.antt =====
-- What the queries and the writes of data sources do to the tables, on every branch.
use ingest_srv.Shared.{
  ℕ, suc, String, Option, none, some, List, ◌==◌, ◌≡◌, inl, inr, refl, arith, map_option,
  Option-cases, if◌then◌else◌, ◌∙◌,
}
use ingest_srv.Model.{DataSource, SourceStatus, DryrunStatus, CrawlMode}
use ingest_srv.Runtime.{World, Outcome, ok, err, Env, ◌>>=◌, pure, statement, reading, spent}
use ingest_srv.Runtime.Steps.{query_cases, statement_cases}
use ingest_srv.Repository.Options.{
  RepoErr, failed_to_get, failed_to_update, UpdateDataSourceOptions,
}
use ingest_srv.Repository.Sources.{
  find, replace, set_enums, given_fields, status_time, save, apply_options, stamp,
  update_data_source,
}
use ingest_srv.Repository.Sources.Rows.{find-replace}

abbrev pub status_of : String → List DataSource → Option SourceStatus
status_of id rows = map_option (λ s. s.status) (find id rows)

abbrev pub new_status : Option SourceStatus → SourceStatus → SourceStatus
new_status none old = old
new_status (some status) old = status

stamp-status :
    (status : Option SourceStatus) (now : ℕ) (s : DataSource)
    → ((stamp status now s).status ≡ new_status status s.status) × ((stamp status now s).id ≡ s.id)
unfolding stamp
stamp-status none now s = (refl, refl)
stamp-status (some SourceStatus.active) now s = (refl, refl)
stamp-status (some _) now s = (refl, refl)

set_enums-keeps :
    (s : DataSource) (dryrun : Option DryrunStatus) (mode : Option (Option CrawlMode))
    {t : DataSource}
    → set_enums s dryrun mode ≡ some t
    → (t.status ≡ s.status) × (t.id ≡ s.id) × (t.deleted_at ≡ s.deleted_at)
set_enums-keeps s none mode h = cc
set_enums-keeps s (some dryrun) none h = cc
set_enums-keeps s (some dryrun) (some mode) h = ground arith

pub apply_options-status :
    (opt : UpdateDataSourceOptions) (now : ℕ) (s : DataSource) {t : DataSource}
    → apply_options opt now s ≡ some t
    → (t.status ≡ new_status opt.status s.status) × (t.id ≡ s.id)
unfolding apply_options
apply_options-status opt now s h =
    let (kept, same, _) = set_enums-keeps (given_fields opt (stamp opt.status now s)) _ _ h in
    let (stamped, still) = stamp-status opt.status now s in (kept ∙ stamped, same ∙ still)

-- A write that is accepted puts the row, with a new updated_at, and touches nothing else.
pub save_accepted :
    (env : Env) (row : Option DataSource) (w : World) {r : DataSource} {w' : World}
    → save env row w ≡ some (r, w')
    → (s : DataSource) × (row ≡ some s)
      × (r.status ≡ s.status)
      × (r.id ≡ s.id)
      × (r.deleted_at ≡ s.deleted_at)
      × (w'.sources ≡ replace r w.sources)
unfolding save
save_accepted env none w h = cc
save_accepted env (some s) w h = (s, refl, ground arith, ground arith, ground arith, ground arith)

status_of-replace :
    (j : String) (r : DataSource) (rows : List DataSource)
    → status_of j (replace r rows)
      ≡ (if r.id == j then map_option (λ old. r.status) (status_of j rows) else status_of j rows)
status_of-replace j r rows = ground (arith, find-replace j r rows)

-- The three ways in which UpdateDataSource ends.
pub data Updated (opt : UpdateDataSourceOptions) (rows rows' : List DataSource)
    (o : Outcome RepoErr (Option DataSource)) : Type 0 where
  failed : (e : RepoErr) → o ≡ err e → rows' ≡ rows → Updated opt rows rows' o
  absent : o ≡ ok none → find opt.id rows ≡ none → rows' ≡ rows → Updated opt rows rows' o
  written :
      (s r : DataSource)
      → find opt.id rows ≡ some s
      → o ≡ ok (some r)
      → r.status ≡ new_status opt.status s.status
      → r.id ≡ s.id
      → rows' ≡ replace r rows
      → Updated opt rows rows' o

module _ (env : Env) (opt : UpdateDataSourceOptions) where
  -- The statement that writes, after the row was read and the clock too.
  update_statement :
      (now : ℕ) (s : DataSource) (w : World)
      → find opt.id w.sources ≡ some s
      → let run =
          statement failed_to_update (save env (apply_options opt now s))
          >>= (λ r. pure (some r)) in
        Updated opt w.sources (run w).1.sources (run w).0
  unfolding ◌>>=◌ pure
  update_statement now s w found =
      elim (statement_cases failed_to_update (save env (apply_options opt now s)) w) [
        | inl fails ↦ rw fails (failed failed_to_update refl refl)
        | inr (r, accepted, runs) ↦
            let (t, applied, status, id, _, rows) =
              save_accepted env (apply_options opt now s) (spent w) accepted in
            let (kept, same) = apply_options-status opt now s applied in
            rw runs (written s r.0 found refl (status ∙ kept) (id ∙ same) rows)
      ]

  update_found :
      (status : Option SourceStatus) (s : DataSource) (w : World)
      → find opt.id w.sources ≡ some s
      → let run = status_time env status >>= (λ now.
        statement failed_to_update (save env (apply_options opt now s)) >>= (λ r. pure (some r))) in
        Updated opt w.sources (run w).1.sources (run w).0
  unfolding ◌>>=◌ pure reading
  update_found none s w found = update_statement 0 s w found
  update_found (some status) s w found =
      update_statement (env.clock w.readings) s (record w { readings = suc w.readings }) found

  -- UpdateDataSource fails and changes no row, or finds no row, answers none and changes no row, or
  -- replaces the row that it found by the one it returns, which has its identifier and the given
  -- status, or the old status if none is given. It never panics.
  pub update_data_source_lem :
      (w : World)
      → Updated opt w.sources
          (update_data_source env opt w).1.sources
          (update_data_source env opt w).0
  unfolding update_data_source ◌>>=◌ pure
  update_data_source_lem w = elim (query_cases failed_to_get (λ v. find opt.id v.sources) w) [
    | inl fails ↦ rw fails (failed failed_to_get refl refl)
    | inr runs ↦ elim (Option-cases (find opt.id w.sources)) [
      | inl none_found ↦ rw (runs, none_found) (absent refl none_found refl)
      | inr (s, found) ↦ rw (runs, found) (update_found opt.status s (spent w) found)
    ]
  ]
