-- ===== src/Datasource/Readiness.antt =====
-- usecase/project_lifecycle.go: GetActivationReadiness. The two loops carry a tally: the errors so
-- far, the counters, the number of eligible sources and whether a crawl source blocks.
pub mod Counts
use ingest_srv.Shared.{
  ℕ, ◌+◌, String, Bool, true, false, Option, none, some, List, [], ◌∷◌, ◌++◌, ◌&&◌, ◌||◌, not,
  length, nat_eq, is_empty, ltb, trim_space, is_blank, if◌then◌else◌,
}
use ingest_srv.Model.{
  DataSource, CrawlTarget, DryrunResult, SourceStatus, SourceCategory, crawl, passive, is_status,
  is_failed, is_confirmed, is_dryrun_required,
}
use ingest_srv.Runtime.{Exec, Env, ◌>>=◌, ◌>>◌, pure, fail, check, wrap}
use ingest_srv.Repository.Sources.{list_data_sources, get_latest_dryrun_by_target}
use ingest_srv.Repository.Targets.{list_targets}
use ingest_srv.Datasource.Types.{
  Err, project_id_required, list_failed, invalid_readiness_command, Command, activate, resume,
  ReadinessError, datasource_required, datasource_status, passive_unconfirmed,
  target_dryrun_missing, target_dryrun_failed, active_target_required, ReadinessOutput,
}
use ingest_srv.Datasource.Validate.{normalize_command}

unfoldable pub is_status_allowed_for_command : SourceStatus → Command → Bool
is_status_allowed_for_command status resume =
    is_status status SourceStatus.paused || is_status status SourceStatus.active
is_status_allowed_for_command status activate =
    is_status status SourceStatus.ready || is_status status SourceStatus.active

pub record Tally : Type 0 where
  pub errors : List ReadinessError
  pub passive_unconfirmed_count : ℕ
  pub missing_target_dryrun_count : ℕ
  pub failed_target_dryrun_count : ℕ
  pub eligible : ℕ
  pub blocking : Bool

abbrev pub report : Tally → ReadinessError → Tally
report t e = record t { errors = t.errors ++ e ∷ [] }

-- What the loop over the targets of one source leaves.
pub record Scan : Type 0 where
  pub tally : Tally
  pub active : ℕ
  pub eligible : Bool

-- One latest dry run, of a target that needs one.
abbrev judge : String → String → Option DryrunResult → Scan → Scan
judge source_id target_id none s = record s {
  tally = record (report s.tally (target_dryrun_missing source_id target_id)) {
    missing_target_dryrun_count = s.tally.missing_target_dryrun_count + 1;
  };
  eligible = false;
}
judge source_id target_id (some d) s =
    if is_failed d.status
    then record s {
      tally = record (report s.tally (target_dryrun_failed source_id target_id)) {
        failed_target_dryrun_count = s.tally.failed_target_dryrun_count + 1;
      };
      eligible = false;
    }
    else s

-- The end of one crawl source.
unfoldable pub close : String → Scan → Tally
close source_id s =
    if nat_eq s.active 0
    then record (report s.tally (active_target_required source_id)) { blocking = true }
    else if s.eligible
    then record s.tally { eligible = s.tally.eligible + 1 }
    else record s.tally { blocking = true }

-- One passive source.
unfoldable pub judge_passive : DataSource → Tally → Tally
judge_passive s t =
    if is_confirmed s.onboarding_status
    then record t { eligible = t.eligible + 1 }
    else record (report t (passive_unconfirmed s.id)) {
      passive_unconfirmed_count = t.passive_unconfirmed_count + 1;
    }

module _ (env : Env) where
  unfoldable pub scan_targets : DataSource → List CrawlTarget → Scan → Exec Err Scan
  scan_targets source [] s = pure s
  scan_targets source (t ∷ ts) s = elim t.is_active [
    | false ↦ scan_targets source ts s
    | true ↦ elim (is_dryrun_required (some source.source_type) t.target_type) [
      | false ↦ scan_targets source ts (record s { active = s.active + 1 })
      | true ↦ do
        latest ← wrap (λ _. list_failed) (get_latest_dryrun_by_target env t.id)
        scan_targets source ts (judge source.id t.id latest (record s { active = s.active + 1 }))
    ]
  ]

  abbrev fresh_scan : Tally → Scan
  fresh_scan t = record { tally = t; active = 0; eligible = true }

  abbrev pub scan_eligible : DataSource → SourceCategory → Tally → Exec Err Tally
  scan_eligible source passive t = pure (judge_passive source t)
  scan_eligible source crawl t = do
    targets ← wrap (λ _. list_failed) (list_targets env source.id "" none)
    scan ← scan_targets source targets (fresh_scan t)
    pure (close source.id scan)

  unfoldable pub scan_source : Command → DataSource → Tally → Exec Err Tally
  unfolding scan_targets close judge_passive is_status_allowed_for_command
  scan_source command source t = elim (is_status_allowed_for_command source.status command) [
    | false ↦ pure (report t (datasource_status source.id))
    | true ↦ scan_eligible source source.source_category t
  ]

  unfoldable pub scan_sources : Command → List DataSource → Tally → Exec Err Tally
  unfolding scan_source
  scan_sources command [] t = pure t
  scan_sources command (s ∷ ss) t = do next ← scan_source command s t; scan_sources command ss next

  abbrev pub start : List DataSource → Tally
  start sources = record {
    errors = if is_empty sources then datasource_required ∷ [] else [];
    passive_unconfirmed_count = 0;
    missing_target_dryrun_count = 0;
    failed_target_dryrun_count = 0;
    eligible = 0;
    blocking = false;
  }

  abbrev pub readiness_output : String → Command → List DataSource → Tally → ReadinessOutput
  readiness_output project_id command sources t = record {
    project_id = project_id;
    command = command;
    data_source_count = length sources;
    has_datasource = ltb 0 (length sources);
    passive_unconfirmed_count = t.passive_unconfirmed_count;
    missing_target_dryrun_count = t.missing_target_dryrun_count;
    failed_target_dryrun_count = t.failed_target_dryrun_count;
    can_proceed = ltb 0 (length sources) && ltb 0 t.eligible && not t.blocking;
    errors = t.errors;
  }

  abbrev pub with_command : Option Command → Exec Err Command
  with_command none = fail invalid_readiness_command
  with_command (some command) = pure command

  unfoldable pub get_activation_readiness : (project_id command : String) → Exec Err ReadinessOutput
  unfolding trim_space is_blank normalize_command scan_sources
  get_activation_readiness project_id command_text = do
    check (if is_blank project_id then some project_id_required else none)
    command ← with_command (normalize_command env command_text)
    sources ← wrap (λ _. list_failed) (list_data_sources env (trim_space project_id))
    tally ← scan_sources command sources (start sources)
    pure (readiness_output (trim_space project_id) command sources tally)
