-- ===== src/Repository/Sources.antt =====
-- repository/postgre/datasource.go over the table `sources`. The constraints of the table are those
-- of migrations/001_create_schema_ingest_v1.sql: a write that breaks one is rejected.
pub mod Lifecycle
pub mod Rows
pub mod Writes
use ingest_srv.Shared.{
  ℕ, suc, String, Bool, true, false, Option, none, some, List, [], ◌∷◌, ◌==◌, ◌&&◌, ◌||◌, not, ℤ,
  first, count, select, any, map, map_option, is_some, is_positive, if◌then◌else◌,
}
use ingest_srv.Model.{
  DataSource, DryrunResult, SourceType, SourceCategory, SourceStatus, DryrunStatus,
  OnboardingStatus, tiktok, facebook, youtube, file_upload, webhook, crawl, passive, CrawlMode,
  is_status, parse_source_type, parse_category, parse_dryrun_status, parse_crawl_mode,
}
use ingest_srv.Runtime.{
  World, Exec, Env, ◌>>=◌, ◌>>◌, pure, fail, statement, query, reading, new_id,
}
use ingest_srv.Repository.Options.{
  RepoErr, failed_to_insert, failed_to_get, failed_to_update, failed_to_delete, failed_to_list,
  CreateDataSourceOptions, UpdateDataSourceOptions, LifecycleOptions,
}

abbrev pub has_id : String → DataSource → Bool
has_id id s = s.id == id

-- sqlboiler.FindDataSource: the row with the primary key, also if it is soft-deleted.
abbrev pub find : String → List DataSource → Option DataSource
find id = first (has_id id)

-- UPDATE … WHERE id = row.id
unfoldable pub replace : DataSource → List DataSource → List DataSource
replace r [] = []
replace r (s ∷ ss) = let rest = replace r ss in if s.id == r.id then r ∷ ss else s ∷ rest

-- chk_data_sources_type_category
abbrev category_fits : SourceType → SourceCategory → Bool
category_fits tiktok crawl = true
category_fits facebook crawl = true
category_fits youtube crawl = true
category_fits file_upload passive = true
category_fits webhook passive = true
category_fits _ _ = false

-- chk_data_sources_crawl_requirements
abbrev crawl_has_mode : SourceCategory → Option CrawlMode → Bool
crawl_has_mode crawl mode = is_some mode
crawl_has_mode passive mode = true

-- chk_data_sources_webhook_ready_requirements
abbrev webhook_ready : SourceType → SourceStatus → String → String → Bool
webhook_ready webhook SourceStatus.ready id secret = not (id == "") && not (secret == "")
webhook_ready webhook SourceStatus.active id secret = not (id == "") && not (secret == "")
webhook_ready _ _ id secret = true

-- chk_data_sources_completed_only_file_upload
abbrev completed_fits : SourceType → SourceStatus → Bool
completed_fits file_upload status = true
completed_fits _ SourceStatus.completed = false
completed_fits _ _ = true

unfoldable pub row_ok : DataSource → Bool
row_ok s =
    category_fits s.source_type s.source_category
    && crawl_has_mode s.source_category s.crawl_mode
    && webhook_ready s.source_type s.status s.webhook_id s.webhook_secret_encrypted
    && completed_fits s.source_type s.status

-- A deleted row reads as absent.
abbrev pub not_deleted : DataSource → Option DataSource
not_deleted s = elim s.deleted_at [ none ↦ some s | some at ↦ none ]

abbrev pub live : Option DataSource → Option DataSource
live none = none
live (some s) = not_deleted s

-- The field if it is given, else the old value.
abbrev or_old : String → String → String
or_old given old = if given == "" then old else given

abbrev enum_or_old {ℓ} : {A : Type ℓ} → (String → Option A) → String → A → Option A
enum_or_old parse given old = if given == "" then some old else parse given

-- The status and the lifecycle timestamp that goes with it.
unfoldable pub stamp : Option SourceStatus → ℕ → DataSource → DataSource
stamp none now s = s
stamp (some SourceStatus.active) now s = record s {
  status = SourceStatus.active;
  activated_at = some now;
}
stamp (some SourceStatus.paused) now s = record s {
  status = SourceStatus.paused;
  paused_at = some now;
}
stamp (some SourceStatus.archived) now s = record s {
  status = SourceStatus.archived;
  archived_at = some now;
}
stamp (some status) now s = record s { status = status }

abbrev mode_or_old : String → Option CrawlMode → Option (Option CrawlMode)
mode_or_old given old = if given == "" then some old else map_option some (parse_crawl_mode given)

abbrev interval_or_old : Option ℤ → Option ℤ → Option ℤ
interval_or_old none old = old
interval_or_old (some n) old = some n

abbrev set_enums : DataSource → Option DryrunStatus → Option (Option CrawlMode) → Option DataSource
set_enums s none mode = none
set_enums s (some dryrun) none = none
set_enums s (some dryrun) (some mode) =
    some (record s { dryrun_status = dryrun; crawl_mode = mode })

-- The fields that are plain texts or numbers.
abbrev given_fields : UpdateDataSourceOptions → DataSource → DataSource
given_fields opt s = record s {
  name = or_old opt.name s.name;
  description = or_old opt.description s.description;
  config = or_old opt.config s.config;
  account_ref = or_old opt.account_ref s.account_ref;
  mapping_rules = or_old opt.mapping_rules s.mapping_rules;
  dryrun_last_result_id = or_old opt.dryrun_last_result_id s.dryrun_last_result_id;
  crawl_interval_minutes = interval_or_old opt.crawl_interval_minutes s.crawl_interval_minutes;
  paused_at = if opt.clear_paused_at then none else s.paused_at;
}

-- The body of UpdateDataSource between the Find and the Update: only given fields are applied.
-- `none` is a row with a text that the enumerations of the database reject.
unfoldable pub apply_options : UpdateDataSourceOptions → ℕ → DataSource → Option DataSource
unfolding stamp parse_dryrun_status parse_crawl_mode
apply_options opt now old =
    set_enums (given_fields opt (stamp opt.status now old))
      (enum_or_old parse_dryrun_status opt.dryrun_status old.dryrun_status)
      (mode_or_old opt.crawl_mode old.crawl_mode)

-- The statuses that UpdateProjectDataSourcesLifecycle starts from, and the row that it leaves.
unfoldable pub in_lifecycle : LifecycleOptions → DataSource → Bool
in_lifecycle opt s =
    s.project_id == opt.project_id
    && not (is_some s.deleted_at)
    && any (λ status. is_status status s.status) opt.from_statuses

unfoldable pub to_lifecycle : LifecycleOptions → ℕ → DataSource → DataSource
to_lifecycle opt now s = record s {
  status = opt.to_status;
  activated_at = if opt.set_activated_at then some now else s.activated_at;
  paused_at =
      if opt.clear_paused_at then none else if opt.set_paused_at then some now else s.paused_at;
  updated_at = now;
}

unfoldable pub move_all :
    (DataSource → Bool) → (DataSource → DataSource) → List DataSource → List DataSource
move_all p f [] = []
move_all p f (s ∷ ss) = (if p s then f s else s) ∷ move_all p f ss

-- Every moved row passes the constraints.
unfoldable pub moved_ok : (DataSource → Bool) → (DataSource → DataSource) → List DataSource → Bool
unfolding row_ok
moved_ok p f [] = true
moved_ok p f (s ∷ ss) = (not (p s) || row_ok (f s)) && moved_ok p f ss

abbrev positive : ℤ → Option ℤ
positive n = if is_positive n then some n else none

-- The row literal of CreateDataSource; `none` is one with a text that an enumeration rejects.
abbrev new_row :
    CreateDataSourceOptions
    → String
    → ℕ
    → Option SourceType
    → Option SourceCategory
    → Option (Option CrawlMode)
    → Option DataSource
new_row opt id now (some source_type) (some category) (some mode) = some (record {
  id = id;
  project_id = opt.project_id;
  name = opt.name;
  description = opt.description;
  source_type = source_type;
  source_category = category;
  status = SourceStatus.pending;
  config = if opt.config == "" then "{}" else opt.config;
  account_ref = opt.account_ref;
  mapping_rules = opt.mapping_rules;
  onboarding_status = OnboardingStatus.not_required;
  dryrun_status = DryrunStatus.not_required;
  dryrun_last_result_id = "";
  crawl_mode = mode;
  crawl_interval_minutes = positive opt.crawl_interval_minutes;
  webhook_id = opt.webhook_id;
  webhook_secret_encrypted = opt.webhook_secret_encrypted;
  created_by = opt.created_by;
  activated_at = none;
  paused_at = none;
  archived_at = none;
  last_success_at = none;
  last_error_at = none;
  last_error_message = "";
  created_at = now;
  updated_at = now;
  deleted_at = none;
})
new_row opt id now _ _ _ = none

unfoldable pub row_of : CreateDataSourceOptions → String → ℕ → Option DataSource
unfolding parse_source_type parse_category parse_crawl_mode
row_of opt id now =
    new_row opt id now (parse_source_type opt.source_type) (parse_category opt.source_category)
      (mode_or_old opt.crawl_mode none)

module _ (env : Env) where
  -- The trigger that sets updated_at, and the write of the row.
  unfoldable pub save : Option DataSource → World → Option (DataSource × World)
  unfolding replace row_ok
  save none w = none
  save (some s) w =
      let row = record s { updated_at = env.clock w.readings } in
      if row_ok row
      then some (row, record w { sources = replace row w.sources; readings = suc w.readings })
      else none

  -- INSERT: a second row with the primary key is rejected.
  unfoldable pub insert : DataSource → World → Option (DataSource × World)
  unfolding row_ok
  insert row w =
      if row_ok row && not (is_some (find row.id w.sources))
      then some (row, record w { sources = row ∷ w.sources })
      else none

  abbrev insert_row : Option DataSource → World → Option (DataSource × World)
  insert_row none w = none
  insert_row (some row) w = insert row w

  unfoldable pub create_data_source : CreateDataSourceOptions → Exec RepoErr DataSource
  create_data_source opt = do
    id ← new_id env
    now ← reading env
    statement failed_to_insert (insert_row (row_of opt id now))

  unfoldable pub detail_data_source : String → Exec RepoErr (Option DataSource)
  detail_data_source id = query failed_to_get (λ w. live (find id w.sources))

  -- ListDataSources with the option ProjectID, the only one that is ever given.
  abbrev pub in_project : String → DataSource → Bool
  in_project project_id s =
      not (is_some s.deleted_at) && (project_id == "" || s.project_id == project_id)

  unfoldable pub list_data_sources : String → Exec RepoErr (List DataSource)
  list_data_sources project_id =
      query failed_to_list (λ w. select (in_project project_id) w.sources)

  unfoldable pub get_latest_dryrun_by_target : String → Exec RepoErr (Option DryrunResult)
  get_latest_dryrun_by_target target_id =
      query failed_to_get (λ w. first (λ d. d.target_id == target_id) w.dryruns)

  -- The clock is read only if a status is given.
  abbrev pub status_time : Option SourceStatus → Exec RepoErr ℕ
  status_time none = pure 0
  status_time (some status) = reading env

  abbrev pub update_row :
      UpdateDataSourceOptions → Option DataSource → Exec RepoErr (Option DataSource)
  update_row opt none = pure none
  update_row opt (some row) = do
    now ← status_time opt.status
    saved ← statement failed_to_update (save (apply_options opt now row))
    pure (some saved)

  unfoldable pub update_data_source : UpdateDataSourceOptions → Exec RepoErr (Option DataSource)
  update_data_source opt = do
    row ← query failed_to_get (λ w. find opt.id w.sources)
    update_row opt row

  abbrev archive_row : Option DataSource → Exec RepoErr (Unit {0})
  archive_row none = fail failed_to_get
  archive_row (some row) = do
    now ← reading env
    statement failed_to_delete
        (save (some (record row { archived_at = some now; status = SourceStatus.archived })))
    pure tt

  unfoldable pub archive_data_source : String → Exec RepoErr (Unit {0})
  archive_data_source id = do row ← query failed_to_delete (λ w. find id w.sources); archive_row row

  abbrev delete_row : Option DataSource → Exec RepoErr (Unit {0})
  delete_row none = fail failed_to_get
  delete_row (some row) = do
    now ← reading env
    statement failed_to_delete (save (some (record row { deleted_at = some now })))
    pure tt

  unfoldable pub delete_data_source : String → Exec RepoErr (Unit {0})
  delete_data_source id = do row ← query failed_to_delete (λ w. find id w.sources); delete_row row

  -- One UPDATE: all matching rows, or none if a constraint is broken.
  unfoldable pub move_sources : LifecycleOptions → ℕ → World → Option (ℕ × World)
  unfolding move_all moved_ok in_lifecycle to_lifecycle
  move_sources opt now w =
      if moved_ok (in_lifecycle opt) (to_lifecycle opt now) w.sources
      then some (
        count (in_lifecycle opt) w.sources,
        record w { sources = move_all (in_lifecycle opt) (to_lifecycle opt now) w.sources },
      )
      else none

  unfoldable pub update_project_data_sources_lifecycle : LifecycleOptions → Exec RepoErr ℕ
  update_project_data_sources_lifecycle opt = do
    now ← reading env
    statement failed_to_update (move_sources opt now)
