-- ===== src/Repository/Targets.antt =====
-- repository/postgre/target.go and CountActiveTargets of datasource.go, over the table `targets`.
use ingest_srv.Shared.{
  ℕ, suc, String, Bool, true, false, Option, none, some, List, [], ◌∷◌, ◌++◌, ◌==◌, ◌&&◌, not, ℤ,
  pos, first, count, select, map, is_some, is_positive, int_le, if◌then◌else◌,
}
use ingest_srv.Json.{Json, null, str, obj, get}
use ingest_srv.Model.{CrawlTarget, Work, TargetType, keyword, profile, post_url, parse_target_type}
use ingest_srv.Runtime.{World, Exec, Env, ◌>>=◌, pure, fail, statement, query, reading, new_id}
use ingest_srv.Repository.Options.{
  RepoErr, failed_to_get, target_failed_to_insert, target_not_found, target_failed_to_update,
  target_failed_to_list, target_failed_to_delete, CreateTargetOptions, UpdateTargetOptions,
}
use ingest_srv.Repository.Sources.{find as find_source}

-- platform_meta #>> '{smap,key}', where only its being missing, empty or "flushed" matters.
abbrev child : Option Json → String → Option Json
child (some (obj fs)) key = get fs key
child _ key = none

-- COALESCE(…, '') = ''
abbrev is_blank_text : Option Json → Bool
is_blank_text none = true
is_blank_text (some null) = true
is_blank_text (some (str s)) = s == ""
is_blank_text (some _) = false

-- COALESCE(…, '') <> 'flushed'
abbrev is_flushed_text : Option Json → Bool
is_flushed_text (some (str s)) = s == "flushed"
is_flushed_text _ = false

unfoldable pub shown_meta : Option Json → Bool
unfolding get
shown_meta meta =
    let smap = child meta "smap" in
    not (is_flushed_text (child smap "visibility")) && is_blank_text (child smap "deleted_at")

abbrev pub owned : String → String → CrawlTarget → Bool
owned source_id id t = t.id == id && t.data_source_id == source_id

abbrev pub find : String → String → List CrawlTarget → Option CrawlTarget
find source_id id = first (owned source_id id)

unfoldable pub replace : CrawlTarget → List CrawlTarget → List CrawlTarget
replace r [] = []
replace r (t ∷ ts) = let rest = replace r ts in if t.id == r.id then r ∷ ts else t ∷ rest

unfoldable pub remove : CrawlTarget → List CrawlTarget → List CrawlTarget
remove r [] = []
remove r (t ∷ ts) = let rest = remove r ts in if t.id == r.id then ts else t ∷ rest

-- ORDER BY priority DESC, created_at ASC: later rows of a priority stay behind earlier ones.
abbrev place : CrawlTarget → List CrawlTarget → List CrawlTarget
place t [] = t ∷ []
place t (u ∷ us) =
    let rest = place t us in if int_le u.priority t.priority then t ∷ u ∷ us else u ∷ rest

unfoldable pub by_priority : List CrawlTarget → List CrawlTarget
by_priority [] = []
by_priority (t ∷ ts) = place t (by_priority ts)

abbrev same_type : TargetType → TargetType → Bool
same_type keyword keyword = true
same_type profile profile = true
same_type post_url post_url = true
same_type _ _ = false

abbrev pub type_passes : Option TargetType → CrawlTarget → Bool
type_passes none t = true
type_passes (some target_type) t = same_type t.target_type target_type

abbrev pub active_passes : Option Bool → CrawlTarget → Bool
active_passes none t = true
active_passes (some true) t = t.is_active
active_passes (some false) t = not t.is_active

abbrev or_old : String → String → String
or_old given old = if given == "" then old else given

abbrev value_or_old {ℓ} : {A : Type ℓ} → Option A → A → A
value_or_old none old = old
value_or_old (some a) old = a

-- The body of UpdateTarget between the query and the Update. No caller gives Values.
unfoldable pub apply_options : UpdateTargetOptions → CrawlTarget → CrawlTarget
apply_options opt t = record t {
  label = or_old opt.label t.label;
  platform_meta = or_old opt.platform_meta t.platform_meta;
  is_active = value_or_old opt.is_active t.is_active;
  priority = value_or_old opt.priority t.priority;
  crawl_interval_minutes = value_or_old opt.crawl_interval_minutes t.crawl_interval_minutes;
}

-- The default of the column crawl_interval_minutes.
abbrev pub default_interval : ℤ
default_interval = pos 11

unfoldable pub row_of : CreateTargetOptions → String → ℕ → CrawlTarget
row_of opt id now = record {
  id = id;
  data_source_id = opt.data_source_id;
  target_type = opt.target_type;
  values = opt.values;
  label = opt.label;
  platform_meta = opt.platform_meta;
  is_active = opt.is_active;
  priority = opt.priority;
  crawl_interval_minutes =
      if is_positive opt.crawl_interval_minutes
      then opt.crawl_interval_minutes
      else default_interval;
  next_crawl_at = none;
  last_crawl_at = none;
  last_success_at = none;
  last_error_at = none;
  last_error_message = "";
  created_at = now;
  updated_at = now;
}

module _ (env : Env) where
  -- The two conditions on platform_meta that every listing has.
  unfoldable pub shown : CrawlTarget → Bool
  unfolding shown_meta
  shown t = shown_meta (env.unmarshal t.platform_meta)

  -- INSERT: the data source exists and the primary key is new.
  unfoldable pub insert : CrawlTarget → World → Option (CrawlTarget × World)
  insert row w =
      if is_some (find_source row.data_source_id w.sources)
        && not (is_some (first (λ t. t.id == row.id) w.targets))
      then some (row, record w { targets = w.targets ++ row ∷ [] })
      else none

  unfoldable pub create_target : CreateTargetOptions → Exec RepoErr CrawlTarget
  create_target opt = do
    id ← new_id env
    now ← reading env
    statement target_failed_to_insert (insert (row_of opt id now))

  abbrev pub found_target : Option CrawlTarget → Exec RepoErr CrawlTarget
  found_target none = fail target_not_found
  found_target (some t) = pure t

  -- Every failure of the query is reported as target_not_found.
  unfoldable pub get_target : String → String → Exec RepoErr CrawlTarget
  get_target source_id id = do
    row ← query target_not_found (λ w. find source_id id w.targets)
    found_target row

  abbrev pub listed : String → Option TargetType → Option Bool → CrawlTarget → Bool
  listed source_id target_type is_active t =
      t.data_source_id == source_id
      && shown t
      && type_passes target_type t
      && active_passes is_active t

  -- A type that the enumeration does not have makes the query fail.
  abbrev pub type_filter : String → Option (Option TargetType)
  type_filter text = if text == "" then some none else elim (parse_target_type text) [
    | none ↦ none
    | some target_type ↦ some (some target_type)
  ]

  abbrev pub list_statement :
      String → Option (Option TargetType) → Option Bool → World → Option (List CrawlTarget × World)
  list_statement source_id none is_active w = none
  list_statement source_id (some target_type) is_active w =
      some (by_priority (select (listed source_id target_type is_active) w.targets), w)

  unfoldable pub list_targets : String → String → Option Bool → Exec RepoErr (List CrawlTarget)
  list_targets source_id target_type is_active =
      statement target_failed_to_list (list_statement source_id (type_filter target_type) is_active)

  -- chk_crawl_targets_interval_positive, the trigger that sets updated_at, and the write.
  unfoldable pub save : CrawlTarget → World → Option (CrawlTarget × World)
  unfolding replace
  save t w =
      let row = record t { updated_at = env.clock w.readings } in
      if is_positive row.crawl_interval_minutes
      then some (row, record w { targets = replace row w.targets; readings = suc w.readings })
      else none

  abbrev pub update_row : UpdateTargetOptions → Option CrawlTarget → Exec RepoErr CrawlTarget
  update_row opt none = fail target_not_found
  update_row opt (some t) = statement target_failed_to_update (save (apply_options opt t))

  unfoldable pub update_target : UpdateTargetOptions → Exec RepoErr CrawlTarget
  update_target opt = do
    row ← query target_failed_to_update (λ w. find opt.data_source_id opt.id w.targets)
    update_row opt row

  abbrev without_target : String → Work → Work
  without_target id k = record k {
    jobs = map (λ j. if j.target_id == id then record j { target_id = "" } else j) k.jobs;
    tasks = map (λ t. if t.target_id == id then record t { target_id = "" } else t) k.tasks;
  }

  -- The foreign keys of jobs and tasks are ON DELETE SET NULL.
  abbrev delete_row : Option CrawlTarget → Exec RepoErr (Unit {0})
  delete_row none = fail target_not_found
  delete_row (some t) =
      statement target_failed_to_delete (λ w.
        some (tt, record w { targets = remove t w.targets; work = without_target t.id w.work }))

  -- The hard delete, which no use case calls.
  unfoldable pub delete_target : String → String → Exec RepoErr (Unit {0})
  delete_target source_id id = do
    row ← query target_failed_to_delete (λ w. find source_id id w.targets)
    delete_row row

  abbrev pub counted : String → CrawlTarget → Bool
  counted source_id t = t.data_source_id == source_id && t.is_active && shown t

  unfoldable pub count_active_targets : String → Exec RepoErr ℕ
  count_active_targets source_id = query failed_to_get (λ w. count (counted source_id) w.targets)
