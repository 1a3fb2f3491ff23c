-- ===== src/Datasource/Crud/Transitions.antt =====
-- Archive and Delete of a data source, over every world and every schedule of failures.
use ingest_srv.Shared.{
  ℕ, suc, String, Bool, true, false, none, some, List, ◌≡◌, ◌≢◌, ◌∙◌, refl, sym, ap, ◌&&◌,
  trim_space, inl, inr, arith, eq_iff, ◌⊎◌, Bool-cases, if◌then◌else◌,
}
use ingest_srv.Model.{DataSource, SourceStatus, is_status}
use ingest_srv.Runtime.{World, Env, ◌>>=◌, pure, statement, reading, spent}
use ingest_srv.Runtime.Steps.{
  SameTables, SameTables-refl, SameTables-trans, Post-check, Post-read, statement_cases,
  query_cases,
}
use ingest_srv.Repository.Options.{RepoErr, failed_to_delete}
use ingest_srv.Repository.Sources.{
  find, live, replace, save, archive_data_source, delete_data_source,
}
use ingest_srv.Repository.Sources.Writes.{save_accepted}
use ingest_srv.Datasource.Types.{Err, UpdateInput}
use ingest_srv.Datasource.Guards.Reads.{Reads-none_running_of}
use ingest_srv.Datasource.Effects.{
  Effect, refused, quiet, moved, Does, Post-load, live_row, one_row, wrap_effect, finish_found,
}
use ingest_srv.Datasource.Lifecycle.Transitions.{refuse, is_status_sound}
use ingest_srv.Datasource.Crud.{
  archive, delete, update, update_options, changes_runtime, changes_config,
}

is_status-apart : (s t : SourceStatus) → is_status s t ≡ false → s ≢ t
is_status-apart s t h p = ground arith

required : (b : Bool) (e : Err) → (if b then none else some e) ≡ none → b ≡ true
required true e h = refl
required false e h = cc

-- The row is archived, and deleted as much as before.
abbrev pub Archives : DataSource → DataSource → Type 0
Archives old new =
    (old.status ≢ SourceStatus.archived)
    × (new.status ≡ SourceStatus.archived)
    × (new.deleted_at ≡ none)

-- A row that is archived gets its time of deletion.
abbrev pub Deletes : DataSource → DataSource → Type 0
Deletes old new =
    (old.status ≡ SourceStatus.archived)
    × (new.status ≡ SourceStatus.archived)
    × (at : ℕ) × (new.deleted_at ≡ some at)

module _ (env : Env) where
  -- The write at the end of ArchiveDataSource and DeleteDataSource.
  saved-Effect :
      (Edge : DataSource → DataSource → Type 0) (x s : DataSource) (rows : List DataSource)
      (v : World)
      → v.sources ≡ rows
      → (find s.id rows ≡ some s) × (s.deleted_at ≡ none)
      → x.id ≡ s.id
      → ((t : DataSource) → t.status ≡ x.status → t.deleted_at ≡ x.deleted_at → Edge s t)
      → Effect RepoErr
          (Unit {0})
          Edge
          rows
          ((statement failed_to_delete (save env (some x)) >>= λ _. pure tt) v)
  unfolding ◌>>=◌ pure
  saved-Effect Edge x s rows v same (here, undeleted) id edge =
      elim (statement_cases failed_to_delete (save env (some x)) v) [
        | inl fails ↦ rw fails (refused failed_to_delete refl same)
        | inr (r, accepted, runs) ↦
            let (y, is, status, key, deleted, wrote) =
              save_accepted env (some x) (spent v) accepted in
            let yx = one_row refl is in
            rw runs (
              moved tt s r.0 refl here undeleted (key ∙ ap (λ z. z.id) yx ∙ id)
                (edge r.0 (status ∙ ap (λ z. z.status) yx) (deleted ∙ ap (λ z. z.deleted_at) yx))
                (wrote ∙ ap (replace r.0) same))
      ]

  archive_effect :
      (id : String) (s : DataSource) (w v : World)
      → SameTables w v
      → live (find id w.sources) ≡ some s
      → s.status ≢ SourceStatus.archived
      → Does Archives w (archive_data_source env id v)
  unfolding archive_data_source ◌>>=◌ reading
  archive_effect id s w v same row live_status =
      let (here, under, undeleted) = live_row id w.sources row in
      let found = ap (find id) same.sources ∙ here in
      elim (query_cases failed_to_delete (λ u. find id u.sources) v) [
        | inl fails ↦ rw fails (refused failed_to_delete refl same.sources)
        | inr runs ↦
            rw (runs, found)
              (saved-Effect Archives _ s w.sources (record (spent v) { readings = suc v.readings })
                same.sources (ap (λ i. find i w.sources) under ∙ here, undeleted) refl
                (λ t archived kept. (live_status, archived, kept ∙ undeleted)))
      ]

  delete_effect :
      (id : String) (s : DataSource) (w v : World)
      → SameTables w v
      → live (find id w.sources) ≡ some s
      → s.status ≡ SourceStatus.archived
      → Does Deletes w (delete_data_source env id v)
  unfolding delete_data_source ◌>>=◌ reading
  delete_effect id s w v same row archived =
      let (here, under, undeleted) = live_row id w.sources row in
      let found = ap (find id) same.sources ∙ here in
      elim (query_cases failed_to_delete (λ u. find id u.sources) v) [
        | inl fails ↦ rw fails (refused failed_to_delete refl same.sources)
        | inr runs ↦
            rw (runs, found)
              (saved-Effect Deletes _ s w.sources (record (spent v) { readings = suc v.readings })
                same.sources (ap (λ i. find i w.sources) under ∙ here, undeleted) refl
                (λ t kept gone. (archived, kept ∙ archived, _, gone)))
      ]

-- The answer `tt` when nothing was written.
keep :
    {w : World} (v : World) → SameTables w v → Effect Err (Unit {0}) Archives w.sources (pure tt v)
unfolding pure
keep v same = quiet tt refl same.sources

module _ (env : Env) (id : String) (w : World) where
  -- Whatever the database answers, Archive ends without a panic, and it changes no data source but at
  -- most one, which is not deleted, is not ARCHIVED and becomes ARCHIVED; if it returns an error, it
  -- changes none.
  pub archive-Does : Does Archives w (archive env id w)
  unfolding archive
  archive-Does =
      Post-check (Does Archives w) _ _ w (λ e _. refuse Archives w e w (SameTables-refl w))
        (λ _.
          Post-load env (Does Archives w) _ (trim_space id) _ w (refuse Archives w) (λ s v same row.
            Post-read (Does Archives w) _ v (Reads-none_running_of env s.id)
              (λ e u still. refuse Archives w e u (SameTables-trans same still))
              (λ _ u still _. elim (Bool-cases (is_status s.status SourceStatus.archived)) [
                | inl archived ↦ rw archived (keep u (SameTables-trans same still))
                | inr other ↦ rw other (
                    wrap_effect Archives _ _ w u (
                      archive_effect env (trim_space id) s w u (SameTables-trans same still) row
                        (is_status-apart _ _ other)))
              ])))

  -- Whatever the database answers, Delete ends without a panic, and it changes no data source but at
  -- most one: one that is not deleted and is ARCHIVED gets a time of deletion and stays ARCHIVED; if
  -- it returns an error, it changes none.
  pub delete-Does : Does Deletes w (delete env id w)
  unfolding delete
  delete-Does =
      Post-check (Does Deletes w) _ _ w (λ e _. refuse Deletes w e w (SameTables-refl w))
        (λ _.
          Post-load env (Does Deletes w) _ (trim_space id) _ w (refuse Deletes w) (λ s v same row.
            Post-read (Does Deletes w) _ v (Reads-none_running_of env s.id)
              (λ e u still. refuse Deletes w e u (SameTables-trans same still))
              (λ _ u still _.
                Post-check (Does Deletes w) _ _ u
                  (λ e _. refuse Deletes w e u (SameTables-trans same still))
                  (λ allowed. wrap_effect Deletes _ _ w u (
                    delete_effect env (trim_space id) s w u (SameTables-trans same still) row
                      (is_status_sound _ _ (required _ _ allowed)))))))

-- A configuration, mapping rules or an interval is given.
abbrev pub GivesRuntime : UpdateInput → Type 0
GivesRuntime input =
    (input.config ≢ "") ⊎ ((input.mapping_rules ≢ "") ⊎ (input.crawl_interval_minutes ≢ none))

-- The status stays, and an input that changes the runtime is for a row that is not ACTIVE.
abbrev pub Edits : UpdateInput → DataSource → DataSource → Type 0
Edits input old new =
    (new.status ≡ old.status) × (GivesRuntime input → old.status ≢ SourceStatus.active)

gives-changes :
    (env : Env) (input : UpdateInput) → GivesRuntime input → changes_runtime env input ≡ true
unfolding changes_runtime changes_config
gives-changes env input (inl config) = ground (arith, config, eq_iff input.config "")
gives-changes env input (inr (inl rules)) = ground (arith, rules, eq_iff input.mapping_rules "")
gives-changes env input (inr (inr interval)) = ground (arith, interval)

-- The guard of Update lets no ACTIVE row pass whose runtime is changed.
allowed_edit :
    (runtime active : Bool) (e : Err)
    → (if runtime && active then some e else none) ≡ none
    → runtime ≡ true
    → active ≡ false
allowed_edit runtime active e h p = ground arith

module _ (env : Env) (input : UpdateInput) (w : World) where
  same_id :
      (s : DataSource)
      → live (find (trim_space input.id) w.sources) ≡ some s
      → s.id ≡ (update_options env input).id
  unfolding update_options
  same_id s row = let (_, under, _) = live_row (trim_space input.id) w.sources row in under

  -- Whatever the database answers, Update ends without a panic, and it changes no data source but at
  -- most one, which is not deleted and keeps its status; if the input gives a configuration, mapping
  -- rules or an interval, that row is not ACTIVE. If it returns an error, it changes none.
  pub update-Does : Does (Edits input) w (update env input w)
  unfolding update
  update-Does =
      let Edge = Edits input in
      Post-check (Does Edge w) _ _ w (λ e _. refuse Edge w e w (SameTables-refl w))
        (λ _.
          Post-load env (Does Edge w) _ (trim_space input.id) _ w (refuse Edge w) (λ s v same row.
            Post-read (Does Edge w) _ v (Reads-none_running_of env s.id)
              (λ e u still. refuse Edge w e u (SameTables-trans same still))
              (λ _ u still _.
                Post-check (Does Edge w) _ _ u
                  (λ e _. refuse Edge w e u (SameTables-trans same still))
                  (λ allowed.
                    finish_found env Edge _ (update_options env input) (trim_space input.id) s w u
                      (SameTables-trans same still) row (sym (same_id s row))
                      (λ t kept. (
                        kept,
                        λ runtime.
                            is_status-apart _ _
                              (allowed_edit _ _ _ allowed (gives-changes env input runtime)),
                      ))))))
