-- ===== src/Datasource/Targets.antt =====
-- usecase/target.go, target_visibility.go and analytics_exclusions.go: crawl targets.
pub mod Flush
pub mod Spares
use ingest_srv.Shared.{
  ℕ, String, Bool, true, false, Option, none, some, List, ◌∷◌, ◌==◌, ◌&&◌, not, trim_space,
  if◌then◌else◌,
}
use ingest_srv.Json.{Json, Fields, null, str, obj, end, get, put}
use ingest_srv.Model.{
  DataSource, CrawlTarget, DryrunResult, TargetType, SourceType, SourceStatus, is_status, is_crawl,
  is_usable_dryrun_status, is_dryrun_required,
}
use ingest_srv.Runtime.{
  Outcome, ok, err, panic, Exec, Env, ◌>>=◌, ◌>>◌, pure, fail, check, wrap, statement, reading,
}
use ingest_srv.Repository.Options.{
  RepoErr, target_not_found, CreateTargetOptions, UpdateTargetOptions, update_of, target_update_of,
}
use ingest_srv.Repository.Sources.{
  detail_data_source, update_data_source, get_latest_dryrun_by_target,
}
use ingest_srv.Repository.Targets.{create_target, get_target, list_targets, update_target}
use ingest_srv.Datasource.Types.{
  Err, not_found, source_archived, source_not_crawl, target_create_failed, target_list_failed,
  target_update_failed, target_delete_failed, target_values_immutable, target_activate_not_allowed,
  target_deactivate_not_allowed, CreateTargetGroupInput, TargetInput, ListTargetsInput,
  UpdateTargetInput,
}
use ingest_srv.Datasource.Validate.{
  valid_create_target_group_input, valid_target_input, valid_list_targets_input,
  valid_update_target_input, prepare_target_values, are_string_slices_equal,
  has_material_target_change,
}
use ingest_srv.Datasource.Guards.{
  found, ensure_target_dryrun_not_running, ensure_can_remove_active_target, mark_datasource_pending,
}

-- `if err == repo.ErrTargetNotFound { return ErrTargetNotFound }`, else the given error.
abbrev pub target_error : Err → RepoErr → Err
target_error other target_not_found = Err.target_not_found
target_error other _ = other

abbrev pub when : Bool → Exec Err (Unit {0}) → Exec Err (Unit {0})
when true m = m
when false m = pure tt

abbrev lift {ℓ} : {A : Type ℓ} → Outcome Err A → Exec Err A
lift o w = (o, w)

abbrev pub source_type_of : Option DataSource → Option SourceType
source_type_of none = none
source_type_of (some s) = some s.source_type

abbrev pub usable : Option DryrunResult → Bool
usable none = false
usable (some d) = is_usable_dryrun_status d.status

-- The flushed metadata: the keys of `smap` are kept, and two are set.
abbrev smap_of : Option Json → Fields
smap_of (some (obj fs)) = fs
smap_of _ = end

unfoldable pub flushed_fields : Fields → String → Fields
unfolding get put
flushed_fields meta now = put meta "smap" (
    obj (put (put (smap_of (get meta "smap")) "deleted_at" (str now)) "visibility" (str "flushed")))

module _ (env : Env) where
  abbrev decoded_meta : Option Json → Outcome Err Fields
  decoded_meta (some (obj fs)) = ok fs
  decoded_meta (some null) = panic
  decoded_meta _ = ok end

  -- From the two keys that are set to the text that is stored.
  abbrev flush : ℕ → Outcome Err Fields → Outcome Err String
  flush now (ok meta) = ok (env.marshal (obj (flushed_fields meta (env.rfc3339 now))))
  flush now (err e) = err e
  flush now panic = panic

  -- The metadata that the target has.
  abbrev pub metadata : CrawlTarget → Outcome Err Fields
  metadata t =
      if t.platform_meta == "" then ok end else decoded_meta (env.unmarshal t.platform_meta)

  -- Unmarshal of `null` sets the map to nil, and the assignment into it panics; a text that is no
  -- object leaves the map empty.
  unfoldable pub target_flushed_platform_meta : CrawlTarget → ℕ → Outcome Err String
  unfolding flushed_fields
  target_flushed_platform_meta t now = flush now (metadata t)

  -- The POST to the analytics service, if it is configured. Any answer but 2xx is an error.
  unfoldable pub hide_target_from_analytics : (source_id target_id : String) → Exec Err (Unit {0})
  unfolding trim_space
  hide_target_from_analytics source_id target_id =
      if not env.analytics_url
      then pure tt
      else if not env.internal_key
      then fail target_delete_failed
      else statement target_delete_failed (λ w.
        some (tt, record w { hidden = (trim_space target_id, trim_space source_id) ∷ w.hidden }))

  -- The create call, once the values are prepared.
  unfoldable pub create_options :
      CreateTargetGroupInput → TargetType → List String → CreateTargetOptions
  unfolding trim_space
  create_options input target_type values = record {
    data_source_id = trim_space input.data_source_id;
    target_type = target_type;
    values = values;
    label = input.label;
    platform_meta = input.platform_meta;
    is_active = false;
    priority = input.priority;
    crawl_interval_minutes = input.crawl_interval_minutes;
  }

  -- CreateKeywordTarget, CreateProfileTarget and CreatePostTarget are the three target types.
  unfoldable pub create_target_group : TargetType → CreateTargetGroupInput → Exec Err CrawlTarget
  unfolding create_options
  create_target_group target_type input = do
    check (valid_create_target_group_input input)
    row ←
        wrap (λ _. target_create_failed) (detail_data_source env (trim_space input.data_source_id))
    source ← found row
    check (if is_status source.status SourceStatus.archived then some source_archived else none)
    check (if is_crawl source.source_category then none else some source_not_crawl)
    values ← lift (prepare_target_values env target_type input.values)
    wrap (λ _. target_create_failed) (create_target env (create_options input target_type values))

  unfoldable pub detail_target : TargetInput → Exec Err CrawlTarget
  detail_target input = do
    check (valid_target_input input)
    wrap (λ _. Err.target_not_found)
        (get_target env (trim_space input.data_source_id) (trim_space input.id))

  unfoldable pub list_targets_of : ListTargetsInput → Exec Err (List CrawlTarget)
  list_targets_of input = do
    check (valid_list_targets_input input)
    wrap (λ _. target_list_failed)
        (list_targets env (trim_space input.data_source_id) (trim_space input.target_type)
          input.is_active)

  abbrev check_values : CrawlTarget → Option (List String) → Outcome Err (Unit {0})
  check_values current none = ok tt
  check_values current (some values) = elim (prepare_target_values env current.target_type values) [
    | ok prepared ↦
        if are_string_slices_equal current.values prepared
        then ok tt
        else err target_values_immutable
    | err e ↦ err e
    | panic ↦ panic
  ]

  abbrev or_empty : Option String → String
  or_empty none = ""
  or_empty (some s) = s

  unfoldable pub update_options : UpdateTargetInput → CrawlTarget → Bool → UpdateTargetOptions
  unfolding trim_space
  update_options input current material =
      record (target_update_of (trim_space input.data_source_id) (trim_space input.id)) {
        label = input.label;
        platform_meta = or_empty input.platform_meta;
        priority = input.priority;
        crawl_interval_minutes = input.crawl_interval_minutes;
        is_active = if material && current.is_active then some false else none;
      }

  unfoldable pub update_target_of : UpdateTargetInput → Exec Err CrawlTarget
  unfolding update_options trim_space
  update_target_of input = do
    check (valid_update_target_input input)
    current ←
        wrap (target_error target_update_failed)
          (get_target env (trim_space input.data_source_id) (trim_space input.id))
    ensure_target_dryrun_not_running env current.id
    lift (check_values current input.values)
    let material = has_material_target_change env current current.values input
    result ←
        wrap (target_error target_update_failed)
          (update_target env (update_options input current material))
    when material (mark_datasource_pending env (trim_space input.data_source_id))
    pure result

  abbrev pub set_active : TargetInput → Bool → UpdateTargetOptions
  set_active input value =
      record (target_update_of (trim_space input.data_source_id) (trim_space input.id)) {
        is_active = some value;
      }

  -- The promotion of a PENDING source; its error is only logged.
  abbrev pub promote_if : String → Bool → Exec Err (Unit {0})
  promote_if id false w = (ok tt, w)
  promote_if id true w = (
    ok tt,
    (update_data_source env
        (record (update_of id) { status = some SourceStatus.ready; dryrun_status = "NOT_REQUIRED" })
        w).1,
  )

  abbrev pub promote : Bool → Option DataSource → Exec Err (Unit {0})
  promote dryrun_needed none = pure tt
  promote dryrun_needed (some s) =
      promote_if s.id (not dryrun_needed && is_status s.status SourceStatus.pending)

  abbrev pub need_usable : String → Exec Err (Unit {0})
  need_usable target_id = do
    latest ← wrap (λ _. target_update_failed) (get_latest_dryrun_by_target env target_id)
    check (if usable latest then none else some target_activate_not_allowed)

  -- `if current.IsActive { return current }`, else the rest of ActivateTarget.
  abbrev pub activate_unless :
      TargetInput → Bool → Option DataSource → CrawlTarget → Bool → Exec Err CrawlTarget
  activate_unless input needed source current true = pure current
  activate_unless input needed source current false = do
    when needed (need_usable current.id)
    updated ← wrap (target_error target_update_failed) (update_target env (set_active input true))
    promote needed source
    pure updated

  unfoldable pub activate_target : TargetInput → Exec Err CrawlTarget
  unfolding trim_space
  activate_target input = do
    check (valid_target_input input)
    current ←
        wrap (target_error target_update_failed)
          (get_target env (trim_space input.data_source_id) (trim_space input.id))
    source ←
        wrap (λ _. target_update_failed) (detail_data_source env (trim_space input.data_source_id))
    let needed = is_dryrun_required (source_type_of source) current.target_type
    when needed (ensure_target_dryrun_not_running env current.id)
    activate_unless input needed source current current.is_active

  -- The errors of ensureCanRemoveActiveTarget that DeactivateTarget passes on.
  abbrev removal_error : Err → Err
  removal_error not_found = not_found
  removal_error target_deactivate_not_allowed = target_deactivate_not_allowed
  removal_error _ = target_update_failed

  unfoldable pub deactivate_target : TargetInput → Exec Err CrawlTarget
  unfolding trim_space
  deactivate_target input = do
    check (valid_target_input input)
    current ←
        wrap (target_error target_update_failed)
          (get_target env (trim_space input.data_source_id) (trim_space input.id))
    ensure_target_dryrun_not_running env current.id
    elim current.is_active [
      | false ↦ pure current
      | true ↦ do
        wrap removal_error (
            ensure_can_remove_active_target env input.data_source_id current.is_active
              target_deactivate_not_allowed)
        wrap (target_error target_update_failed) (update_target env (set_active input false))
    ]

  unfoldable pub delete_target_of : TargetInput → Exec Err (Unit {0})
  unfolding trim_space
  delete_target_of input = do
    check (valid_target_input input)
    current ←
        wrap (target_error target_delete_failed)
          (get_target env (trim_space input.data_source_id) (trim_space input.id))
    ensure_target_dryrun_not_running env current.id
    hide_target_from_analytics input.data_source_id current.id
    now ← reading env
    meta ← lift (target_flushed_platform_meta current now)
    wrap (target_error target_delete_failed)
        (update_target env (record (set_active input false) { platform_meta = meta }))
    pure tt
