-- ===== src/Tests.antt =====
-- A project with three data sources and its database, and the theorems at work on them.
mod Dryrun
mod Execution
mod Uap
use ingest_srv.Shared.{
  ℕ, zero, suc, ◌≤◌, String, true, false, none, some, List, [], ◌∷◌, ◌≡◌, ◌≢◌, ◌⊎◌, refl, arith,
  count, ◌==◌, pos, All, trim_space, is_blank, if◌then◌else◌,
}
use ingest_srv.Json.{Json, obj, end, null}
use ingest_srv.Model.{
  DataSource, CrawlTarget, SourceType, SourceCategory, SourceStatus, DryrunStatus, OnboardingStatus,
  CrawlMode, TargetType, parse_crawl_mode, is_keyword, keyword,
}
use ingest_srv.Runtime.{
  World, Env, ok, panic, ProjectReply, pure, fail, check, wrap, statement, query, reading, ◌>>=◌,
}
use ingest_srv.Repository.Options.{
  update_of, BulkModeOptions, LifecycleOptions, UpdateDataSourceOptions,
}
use ingest_srv.Repository.Sources.{
  find, row_ok, detail_data_source, update_data_source, save, apply_options,
}
use ingest_srv.Repository.Sources.Writes.{status_of, Updated, update_data_source_lem}
use ingest_srv.Repository.Targets.{count_active_targets, shown, listed, counted}
use ingest_srv.Repository.Modes.{bulk_apply_project_crawl_mode}
use ingest_srv.Repository.Modes.Bulk.{BulkEnds, bulk_apply-Ends}
use ingest_srv.Repository.Modes.Digits.{itoa, value_from}
use ingest_srv.Repository.Modes.Digits.Value.{value-itoa}
use ingest_srv.Datasource.Effects.{Does}
use ingest_srv.Datasource.Lifecycle.{activate_data_source, pause_data_source, resume_data_source}
use ingest_srv.Datasource.Lifecycle.Transitions.{Moves, activate-Does, pause-Does, resume-Does}
use ingest_srv.Datasource.Crud.{archive, delete, update}
use ingest_srv.Datasource.Crud.Transitions.{
  Archives, Deletes, Edits, update-Does, archive-Does, delete-Does,
}
use ingest_srv.Datasource.Dryrun.{mark_dryrun_running}
use ingest_srv.Datasource.Dryrun.Transitions.{Validates, IsPending, mark_dryrun_running-Does}
use ingest_srv.Datasource.Types.{
  Err, UpdateInput, ReadinessOutput, Command, active_target_required, datasource_status,
}
use ingest_srv.Datasource.Guards.{ensure_can_remove_active_target}
use ingest_srv.Datasource.Guards.Removal.{CanSpare, ensure_can_remove-CanSpare}
use ingest_srv.Datasource.Lifecycle.Completes.{paused_row, pause-completes}
use ingest_srv.Datasource.Project.{
  activate_project, resume_project, activate_options, resume_options,
}
use ingest_srv.Datasource.Project.Starts.{Starts, activate_project-Starts, resume_project-Starts}
use ingest_srv.Datasource.Validate.{
  valid_data_source_id, normalize_target_values, prepare_target_values, contains, is_url,
}
use ingest_srv.Datasource.Validate.Reference.{texts, firsts, normalize_target_values-texts}
use ingest_srv.Datasource.Validate.Values.{
  IsTrimmed, normalize_target_values-distinct, prepare_target_values-ok,
}
use ingest_srv.Datasource.Targets.{target_flushed_platform_meta, flushed_fields}
use ingest_srv.Datasource.Targets.Flush.{IsNull, flushed-excluded, flushed_panic-IsNull}

-- The document of a flushed target without metadata, and its text in the test codec.
abbrev flushed_document : Json
flushed_document = obj (flushed_fields end "2026-01-01T00:00:00Z")

abbrev new_name : ℕ → String
new_name zero = "new-0"
new_name (suc zero) = "new-1"
new_name (suc (suc n)) = "new-2"

abbrev env : Env
env = record {
  clock = λ n. n;
  uuid = new_name;
  unmarshal = λ s. if s == "flushed" then some flushed_document else some null;
  marshal = λ j. "flushed";
  rfc3339 = λ n. "2026-01-01T00:00:00Z";
  request_uri = λ s. if s == "https://a.vn/p" then some ("https", "a.vn") else none;
  project = some (λ id. ProjectReply.live);
  cancel_runtime = none;
  analytics_url = false;
  internal_key = false;
  activate_text = "activate";
  resume_text = "resume";
  locked = λ id. false;
  user_id = "user";
}

abbrev source : String → SourceStatus → DataSource
source id status = record {
  id = id;
  project_id = "project";
  name = "Source";
  description = "";
  source_type = SourceType.tiktok;
  source_category = SourceCategory.crawl;
  status = status;
  config = "{}";
  account_ref = "";
  mapping_rules = "";
  onboarding_status = OnboardingStatus.not_required;
  dryrun_status = DryrunStatus.not_required;
  dryrun_last_result_id = "";
  crawl_mode = some CrawlMode.normal;
  crawl_interval_minutes = some (pos 15);
  webhook_id = "";
  webhook_secret_encrypted = "";
  created_by = "user";
  activated_at = none;
  paused_at = none;
  archived_at = none;
  last_success_at = none;
  last_error_at = none;
  last_error_message = "";
  created_at = 0;
  updated_at = 0;
  deleted_at = none;
}

abbrev target : String → CrawlTarget
target source_id = record {
  id = "t";
  data_source_id = source_id;
  target_type = keyword;
  values = "coffee" ∷ [];
  label = "";
  platform_meta = "";
  is_active = true;
  priority = pos 0;
  crawl_interval_minutes = pos 11;
  next_crawl_at = none;
  last_crawl_at = none;
  last_success_at = none;
  last_error_at = none;
  last_error_message = "";
  created_at = 0;
  updated_at = 0;
}

abbrev world : World
world = record {
  sources =
      source "ready" SourceStatus.ready
      ∷ source "active" SourceStatus.active
      ∷ source "paused" SourceStatus.paused
      ∷ source "archived" SourceStatus.archived
      ∷ [];
  targets = target "ready" ∷ [];
  dryruns = [];
  changes = [];
  hidden = [];
  work = record { jobs = []; tasks = []; batches = [] };
  sent = [];
  published = [];
  objects = [];
  faults = [];
  readings = 0;
  drawn = 0;
}

pause_test :
    status_of "active" (pause_data_source env " active" world).1.sources ≡ some SourceStatus.paused
unfolding pause_data_source detail_data_source update_data_source save query statement reading pure
    check wrap fail ◌>>=◌ trim_space valid_data_source_id apply_options
pause_test = refl

activate-Does_example :
    Does
      (Moves SourceStatus.ready SourceStatus.active)
      world
      (activate_data_source env "ready" world)
activate-Does_example = activate-Does env "ready" world

named : is_blank "active" ≡ false
unfolding is_blank
named = refl

stored : find (trim_space "active") world.sources ≡ some (source "active" SourceStatus.active)
unfolding trim_space
stored = refl

constrained : row_ok (source "active" SourceStatus.active) ≡ true
unfolding row_ok
constrained = refl

pause-completes_example :
    let r = paused_row (source "active" SourceStatus.active) 0 1 in
    ((pause_data_source env "active" world).0 ≡ ok (some r))
    × (find (trim_space "active") (pause_data_source env "active" world).1.sources ≡ some r)
pause-completes_example =
    pause-completes env "active" world (source "active" SourceStatus.active) refl named stored refl
      refl constrained

abbrev spare : World
spare = record world {
  targets = target "active" ∷ record (target "active") { id = "t2"; platform_meta = "{}" } ∷ [];
}

removes :
    (ensure_can_remove_active_target env "active" true Err.target_deactivate_not_allowed spare).0
    ≡ ok tt
unfolding ensure_can_remove_active_target ◌>>=◌ pure wrap check detail_data_source query
    count_active_targets trim_space shown
removes = refl

ensure_can_remove-CanSpare_example : CanSpare env (trim_space "active") spare
ensure_can_remove-CanSpare_example =
    ensure_can_remove-CanSpare env "active" Err.target_deactivate_not_allowed spare removes

pause-Does_example :
    Does
      (Moves SourceStatus.active SourceStatus.paused)
      world
      (pause_data_source env "active" world)
pause-Does_example = pause-Does env "active" world

resume-Does_example :
    Does
      (Moves SourceStatus.paused SourceStatus.active)
      world
      (resume_data_source env "paused" world)
resume-Does_example = resume-Does env "paused" world

archive-Does_example : Does Archives world (archive env "active" world)
archive-Does_example = archive-Does env "active" world

delete-Does_example : Does Deletes world (delete env "archived" world)
delete-Does_example = delete-Does env "archived" world

mark_dryrun_running-Does_example :
    Does (Validates IsPending) world (mark_dryrun_running env "ready" "d" world)
mark_dryrun_running-Does_example = mark_dryrun_running-Does env "ready" "d" world

abbrev pausing_all : LifecycleOptions
pausing_all = record {
  project_id = "project";
  from_statuses = SourceStatus.active ∷ [];
  to_status = SourceStatus.paused;
  set_activated_at = false;
  set_paused_at = true;
  clear_paused_at = false;
}

abbrev to_crisis : BulkModeOptions
to_crisis = record {
  project_id = "project";
  target_mode = "CRISIS";
  trigger_type = "CRISIS_EVENT";
  reason = "";
  event_ref = "";
}

bulk_apply-Ends_example :
    BulkEnds env to_crisis
      (trim_space "project")
      (parse_crawl_mode (trim_space "CRISIS"))
      world
      (bulk_apply_project_crawl_mode env to_crisis world)
bulk_apply-Ends_example = bulk_apply-Ends env to_crisis world

value-itoa_example : (bs : List ℕ) × (itoa 4096 ≡ some bs) × (value_from 0 bs ≡ 4096)
value-itoa_example = value-itoa 4096 (omega arith)

normalize_target_values-distinct_example :
    count (λ x. x == "b") (normalize_target_values ("b " ∷ " b" ∷ "" ∷ []) true) ≤ 1
normalize_target_values-distinct_example =
    normalize_target_values-distinct ("b " ∷ " b" ∷ "" ∷ []) "b"

normalize_target_values-texts_example :
    normalize_target_values ("b " ∷ "" ∷ " b" ∷ []) true
    ≡ (if true then firsts (texts ("b " ∷ "" ∷ " b" ∷ [])) else texts ("b " ∷ "" ∷ " b" ∷ []))
normalize_target_values-texts_example = normalize_target_values-texts ("b " ∷ "" ∷ " b" ∷ []) true

profile_url :
    prepare_target_values env TargetType.profile (" https://a.vn/p" ∷ [])
    ≡ ok ("https://a.vn/p" ∷ [])
unfolding prepare_target_values
profile_url = refl

prepare_target_values-ok_example :
    ◌≢◌ {A = List String} ("https://a.vn/p" ∷ []) []
    × All IsTrimmed ("https://a.vn/p" ∷ [])
    × (is_keyword TargetType.profile ≡ false
        → All (λ v. is_url env (env.request_uri v) ≡ true) ("https://a.vn/p" ∷ []))
prepare_target_values-ok_example =
    prepare_target_values-ok env TargetType.profile (" https://a.vn/p" ∷ []) profile_url

abbrev flushed_target : CrawlTarget
flushed_target = record (target "ready") { platform_meta = "flushed" }

flushes : target_flushed_platform_meta env (target "ready") 3 ≡ ok "flushed"
unfolding target_flushed_platform_meta
flushes = refl

flushed-excluded_example :
    (listed env "ready" none none flushed_target ≡ false)
    × (counted env "ready" flushed_target ≡ false)
flushed-excluded_example =
    flushed-excluded env (target "ready") flushed_target 3 end refl refl flushes "ready" none none

abbrev null_target : CrawlTarget
null_target = record (target "ready") { platform_meta = "null" }

flushed_panic-IsNull_example :
    ((target_flushed_platform_meta env null_target 3 ≡ panic) × IsNull env null_target)
    ⊎ ((¬ IsNull env null_target)
        × (text : String) × (target_flushed_platform_meta env null_target 3 ≡ ok text))
flushed_panic-IsNull_example = flushed_panic-IsNull env null_target 3

-- The report on the world: the paused and the archived source have the wrong status, and the active
-- one has no target.
abbrev report : ReadinessOutput
report = record {
  project_id = "project";
  command = Command.activate;
  data_source_count = 4;
  has_datasource = true;
  passive_unconfirmed_count = 0;
  missing_target_dryrun_count = 0;
  failed_target_dryrun_count = 0;
  can_proceed = false;
  errors =
      active_target_required "active"
      ∷ datasource_status "paused"
      ∷ datasource_status "archived"
      ∷ [];
}

abbrev renamed : UpdateInput
renamed = record {
  id = "active";
  name = "New name";
  description = "";
  config = "";
  account_ref = "";
  mapping_rules = "";
  crawl_interval_minutes = none;
}

update-Does_example : Does (Edits renamed) world (update env renamed world)
update-Does_example = update-Does env renamed world

activate_project-Starts_example :
    Starts (trim_space "project") SourceStatus.ready world (activate_project env "project" world)
activate_project-Starts_example = activate_project-Starts env world "project"

resume_project-Starts_example :
    Starts (trim_space "project") SourceStatus.paused world (resume_project env "project" world)
resume_project-Starts_example = resume_project-Starts env world "project"
