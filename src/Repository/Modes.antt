-- ===== src/Repository/Modes.antt =====
-- repository/postgre/crawl_mode_change.go: the audit of crawl mode changes, and the change of a whole
-- project in one transaction.
pub mod Bulk
pub mod Digits
use ingest_srv.Shared.{
  ℕ, suc, ◌+◌, String, Bool, true, false, Option, none, some, List, [], ◌∷◌, ◌++◌, ◌==◌, ◌&&◌, ◌||◌,
  not, ℤ, pos, first, count, select, length, nat_eq, is_some, is_positive, trim_space, is_blank,
  if◌then◌else◌,
}
use ingest_srv.Model.{
  DataSource, CrawlModeChange, CrawlMode, TriggerType, SourceStatus, is_status, is_crawl, is_mode,
  parse_crawl_mode, parse_trigger_type,
}
use ingest_srv.Runtime.{
  World, ok, Exec, Env, ◌>>=◌, ◌>>◌, pure, fail, statement, query, transaction, reading, new_id,
}
use ingest_srv.Repository.Options.{
  RepoErr, failed_to_update, crawl_mode_change_failed_to_insert, CreateCrawlModeChangeOptions,
  BulkModeOptions,
}
use ingest_srv.Repository.Sources.{find, move_all, moved_ok}

pub record BulkModeOutput : Type 0 where
  pub affected : ℕ
  pub eligible : ℕ
  pub already_target : ℕ

-- A row that the UPDATE returned: the source, its old mode and its interval.
pub record Changed : Type 0 where
  pub source_id : String
  pub from_mode : CrawlMode
  pub interval_minutes : ℤ

-- INSERT of audit rows: each primary key is new and each data source exists.
unfoldable pub append_changes :
    List CrawlModeChange → List DataSource → List CrawlModeChange → Option (List CrawlModeChange)
append_changes [] sources table = some table
append_changes (c ∷ cs) sources table =
    let rest = append_changes cs sources (c ∷ table) in
    if is_some (find c.source_id sources) && not (is_some (first (λ d. d.id == c.id) table))
    then rest
    else none

abbrev with_changes : World → Option (List CrawlModeChange) → Option (Unit {0} × World)
with_changes w none = none
with_changes w (some table) = some (tt, record w { changes = table })

unfoldable pub insert_changes : Option (List CrawlModeChange) → World → Option (Unit {0} × World)
unfolding append_changes
insert_changes none w = none
insert_changes (some cs) w = with_changes w (append_changes cs w.sources w.changes)

-- The conditions that all statements of BulkApplyProjectCrawlMode repeat.
abbrev pub interval_positive : Option ℤ → Bool
interval_positive none = false
interval_positive (some n) = is_positive n

abbrev pub status_eligible : SourceStatus → Bool
status_eligible SourceStatus.ready = true
status_eligible SourceStatus.active = true
status_eligible SourceStatus.paused = true
status_eligible _ = false

unfoldable pub is_eligible : String → DataSource → Bool
is_eligible project_id s =
    s.project_id == project_id
    && not (is_some s.deleted_at)
    && is_crawl s.source_category
    && status_eligible s.status
    && is_some s.crawl_mode
    && interval_positive s.crawl_interval_minutes

-- crawl_mode = mode, false on NULL
abbrev pub mode_is : CrawlMode → Option CrawlMode → Bool
mode_is mode none = false
mode_is mode (some m) = is_mode m mode

unfoldable pub already : String → CrawlMode → DataSource → Bool
unfolding is_eligible
already project_id mode s = is_eligible project_id s && mode_is mode s.crawl_mode

unfoldable pub to_change : Env → String → CrawlMode → DataSource → Bool
unfolding is_eligible
to_change env project_id mode s =
    is_eligible project_id s && not (mode_is mode s.crawl_mode) && not (env.locked s.id)

unfoldable pub set_mode : CrawlMode → ℕ → DataSource → DataSource
set_mode mode now s = record s { crawl_mode = some mode; updated_at = now }

abbrev cons_changed : DataSource → Option CrawlMode → Option ℤ → List Changed → List Changed
cons_changed s (some mode) (some n) rest =
    record { source_id = s.id; from_mode = mode; interval_minutes = n } ∷ rest
cons_changed s _ _ rest = rest

-- RETURNING t.id, t.from_mode, t.crawl_interval_minutes
unfoldable pub returning : List DataSource → List Changed
returning [] = []
returning (s ∷ ss) = cons_changed s s.crawl_mode s.crawl_interval_minutes (returning ss)

abbrev nullable : String → String
nullable s = if is_blank s then "" else s

module _ (env : Env) where
  abbrev change_row :
      CreateCrawlModeChangeOptions
      → String
      → ℕ
      → Option TriggerType
      → Option CrawlMode
      → Option CrawlMode
      → Option (List CrawlModeChange)
  change_row opt id now (some trigger) (some from) (some to) = some (
      record {
        id = id;
        source_id = opt.source_id;
        project_id = opt.project_id;
        trigger_type = trigger;
        from_mode = from;
        to_mode = to;
        from_interval_minutes = opt.from_interval_minutes;
        to_interval_minutes = opt.to_interval_minutes;
        reason = opt.reason;
        event_ref = opt.event_ref;
        triggered_by = opt.triggered_by;
        triggered_at = now;
      }
      ∷ [])
  change_row opt id now _ _ _ = none

  unfoldable pub create_crawl_mode_change : CreateCrawlModeChangeOptions → Exec RepoErr (Unit {0})
  create_crawl_mode_change opt = do
    id ← new_id env
    now ← reading env
    statement crawl_mode_change_failed_to_insert (
        insert_changes (
          change_row opt id now (parse_trigger_type opt.trigger_type)
            (parse_crawl_mode opt.from_mode) (parse_crawl_mode opt.to_mode)))

  -- The loop that builds the rows of the INSERT; it draws an identifier for each.
  unfoldable pub build_changes :
      BulkModeOptions
      → String
      → CrawlMode
      → TriggerType
      → ℕ
      → List Changed
      → ℕ
      → List CrawlModeChange
  unfolding is_blank
  build_changes opt project_id mode trigger now [] drawn = []
  build_changes opt project_id mode trigger now (c ∷ cs) drawn =
      record {
        id = env.uuid drawn;
        source_id = c.source_id;
        project_id = project_id;
        trigger_type = trigger;
        from_mode = c.from_mode;
        to_mode = mode;
        from_interval_minutes = c.interval_minutes;
        to_interval_minutes = c.interval_minutes;
        reason = nullable opt.reason;
        event_ref = nullable opt.event_ref;
        triggered_by = "";
        triggered_at = now;
      }
      ∷ build_changes opt project_id mode trigger now cs (suc drawn)

  -- The UPDATE … RETURNING: the rows that another transaction holds are skipped.
  unfoldable pub update_modes : String → CrawlMode → World → Option (List Changed × World)
  unfolding to_change set_mode move_all moved_ok returning
  update_modes project_id mode w =
      let test = to_change env project_id mode in
      let set = set_mode mode (env.clock w.readings) in
      if moved_ok test set w.sources
      then some (
        returning (select test w.sources),
        record w { sources = move_all test set w.sources; readings = suc w.readings },
      )
      else none

  abbrev insert_built :
      BulkModeOptions
      → String
      → CrawlMode
      → ℕ
      → List Changed
      → Option TriggerType
      → World
      → Option (Unit {0} × World)
  insert_built opt project_id mode now cs none w = none
  insert_built opt project_id mode now cs (some trigger) w =
      insert_changes (some (build_changes opt project_id mode trigger now cs w.drawn)) w

  -- A draw of n identifiers.
  abbrev draw : ℕ → Exec RepoErr (Unit {0})
  draw n w = (ok tt, record w { drawn = w.drawn + n })

  -- BeginTx or Commit: it can fail and changes no table.
  abbrev boundary : Exec RepoErr (Unit {0})
  boundary = query failed_to_update (λ w. tt)

  abbrev output : ℕ → ℕ → List Changed → BulkModeOutput
  output eligible already_target cs = record {
    affected = length cs;
    eligible = eligible;
    already_target = already_target;
  }

  -- From the UPDATE to the return: no audit row is written if no row was changed.
  abbrev audit_changes :
      BulkModeOptions → String → CrawlMode → ℕ → ℕ → List Changed → Exec RepoErr BulkModeOutput
  audit_changes opt project_id mode eligible already_target [] = do
    boundary
    pure (output eligible already_target [])
  audit_changes opt project_id mode eligible already_target (c ∷ cs) = do
    now ← reading env
    statement crawl_mode_change_failed_to_insert
        (insert_built opt project_id mode now (c ∷ cs) (parse_trigger_type opt.trigger_type))
    draw (length (c ∷ cs))
    boundary
    pure (output eligible already_target (c ∷ cs))

  abbrev reject : World → Option (List Changed × World)
  reject w = none

  -- A mode that the enumeration does not have is rejected by the cast in the UPDATE.
  abbrev change_modes :
      BulkModeOptions → String → Option CrawlMode → ℕ → ℕ → Exec RepoErr BulkModeOutput
  change_modes opt project_id none eligible already_target = do
    statement failed_to_update reject
    fail failed_to_update
  change_modes opt project_id (some mode) eligible already_target = do
    updated ← statement failed_to_update (update_modes project_id mode)
    audit_changes opt project_id mode eligible already_target updated

  -- The early return.
  abbrev all_done :
      BulkModeOptions → String → Option CrawlMode → ℕ → ℕ → Bool → Exec RepoErr BulkModeOutput
  all_done opt project_id mode eligible already_target true = do
    boundary
    pure (output eligible already_target [])
  all_done opt project_id mode eligible already_target false =
      change_modes opt project_id mode eligible already_target

  abbrev already_count : String → Option CrawlMode → World → ℕ
  already_count project_id none w = 0
  already_count project_id (some mode) w = count (already project_id mode) w.sources

  abbrev counts : String → Option CrawlMode → World → ℕ × ℕ
  counts project_id mode w =
      (count (is_eligible project_id) w.sources, already_count project_id mode w)

  abbrev bulk_body : BulkModeOptions → String → Option CrawlMode → Exec RepoErr BulkModeOutput
  bulk_body opt project_id mode = do
    boundary
    n ← query failed_to_update (counts project_id mode)
    all_done opt project_id mode n.0 n.1 (nat_eq n.0 0 || nat_eq n.1 n.0)

  unfoldable pub bulk_apply_project_crawl_mode : BulkModeOptions → Exec RepoErr BulkModeOutput
  bulk_apply_project_crawl_mode opt =
      let project_id = trim_space opt.project_id in
      let mode = trim_space opt.target_mode in
      if project_id == "" || mode == ""
      then fail failed_to_update
      else transaction (bulk_body opt project_id (parse_crawl_mode mode))
