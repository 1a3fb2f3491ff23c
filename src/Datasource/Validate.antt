-- ===== src/Datasource/Validate.antt =====
-- The validation of inputs in usecase/helpers.go and usecase/datasource.go, and the preparation and
-- comparison of target values. A validator returns its error, `none` for nil.
pub mod Values
pub mod Reference
use ingest_srv.Shared.{
  String, Bool, true, false, Option, none, some, List, [], ◌∷◌, ◌==◌, ◌&&◌, ◌||◌, not, ℤ, length,
  nat_eq, is_empty, is_some, is_positive, is_negative, int_eq, trim_space, is_blank, if◌then◌else◌,
}
use ingest_srv.Json.{Json, deep_equal}
use ingest_srv.Model.{
  CrawlTarget, TargetType, keyword, profile, post_url, is_keyword, parse_source_type,
  parse_category, parse_crawl_mode, parse_target_type, parse_trigger_type,
}
use ingest_srv.Runtime.{Env, Outcome, ok, err}
use ingest_srv.Datasource.Types.{
  Err, not_found, name_required, project_id_required, source_type_required, invalid_source_type,
  invalid_category, invalid_crawl_mode, invalid_crawl_interval, crawl_config_required,
  crawl_mode_not_allowed, target_not_found, target_values_required, target_values_must_be_urls,
  invalid_target_type, invalid_target_interval, invalid_readiness_command, CreateInput, UpdateInput,
  CrawlModeInput, CreateTargetGroupInput, TargetInput, ListTargetsInput, UpdateTargetInput, Command,
  activate, resume,
}

-- The first error of two validations.
infixr 20 ◌then_check◌
abbrev ◌then_check◌ : Option Err → Option Err → Option Err
none then_check other = other
(some e) then_check other = some e

abbrev require : Bool → Err → Option Err
require true e = none
require false e = some e

unfoldable pub validate_source_type : String → Option Err
unfolding parse_source_type
validate_source_type s = require (is_some (parse_source_type s)) invalid_source_type

unfoldable pub validate_source_category : String → Option Err
unfolding parse_category
validate_source_category s = require (is_some (parse_category s)) invalid_category

unfoldable pub validate_crawl_mode : String → Option Err
unfolding parse_crawl_mode
validate_crawl_mode s = require (is_some (parse_crawl_mode s)) invalid_crawl_mode

unfoldable pub validate_trigger_type : String → Option Err
unfolding parse_trigger_type
validate_trigger_type s = require (is_some (parse_trigger_type s)) crawl_mode_not_allowed

unfoldable pub validate_target_type : String → Option Err
unfolding parse_target_type
validate_target_type s = require (is_some (parse_target_type s)) invalid_target_type

unfoldable pub infer_category : String → String
infer_category s = if s == "FILE_UPLOAD" || s == "WEBHOOK" then "PASSIVE" else "CRAWL"

abbrev pub contains : String → List String → Bool
contains s [] = false
contains s (x ∷ xs) = x == s || contains s xs

-- The loop of normalizeTargetValues; `seen` is its set.
unfoldable pub normalize_from : Bool → List String → List String → List String
unfolding trim_space
normalize_from dedupe seen [] = []
normalize_from dedupe seen (value ∷ values) =
    let trimmed = trim_space value in
    let skip = trimmed == "" || (dedupe && contains trimmed seen) in
    let rest = normalize_from dedupe (if skip then seen else trimmed ∷ seen) values in
    if skip then rest else trimmed ∷ rest

unfoldable pub normalize_target_values : List String → Bool → List String
unfolding normalize_from
normalize_target_values values dedupe = normalize_from dedupe [] values

unfoldable pub are_string_slices_equal : List String → List String → Bool
unfolding trim_space
are_string_slices_equal [] [] = true
are_string_slices_equal (x ∷ xs) (y ∷ ys) =
    trim_space x == trim_space y && are_string_slices_equal xs ys
are_string_slices_equal _ _ = false

unfoldable pub valid_create_target_group_input : CreateTargetGroupInput → Option Err
unfolding is_blank
valid_create_target_group_input input =
    require (not (is_blank input.data_source_id)) project_id_required
    then_check require (not (is_negative input.crawl_interval_minutes)) invalid_target_interval

-- validDetailTargetInput, validActivateTargetInput, validDeactivateTargetInput and
-- validDeleteTargetInput have one body.
unfoldable pub valid_target_input : TargetInput → Option Err
unfolding is_blank
valid_target_input input =
    require (not (is_blank input.data_source_id || is_blank input.id)) target_not_found

unfoldable pub valid_list_targets_input : ListTargetsInput → Option Err
unfolding is_blank validate_target_type
valid_list_targets_input input =
    require (not (is_blank input.data_source_id)) project_id_required
    then_check (if is_blank input.target_type
        then none
        else validate_target_type (trim_space input.target_type))

abbrev interval_given_ok : Option ℤ → Bool
interval_given_ok none = true
interval_given_ok (some n) = is_positive n

unfoldable pub valid_update_target_input : UpdateTargetInput → Option Err
unfolding is_blank
valid_update_target_input input =
    require (not (is_blank input.data_source_id || is_blank input.id)) target_not_found
    then_check require (interval_given_ok input.crawl_interval_minutes) invalid_target_interval

-- validDataSourceID, validDetailInput and validArchiveInput have one body.
unfoldable pub valid_data_source_id : String → Option Err
unfolding is_blank
valid_data_source_id id = require (not (is_blank id)) not_found

unfoldable pub valid_update_input : UpdateInput → Option Err
unfolding is_blank
valid_update_input input =
    require (not (is_blank input.id)) not_found
    then_check require (interval_given_ok input.crawl_interval_minutes) invalid_crawl_interval

-- The error of a blank identifier is the caller's: validUpdateCrawlModeInput says not_found,
-- validUpdateProjectCrawlModeInput says project_id_required.
unfoldable pub valid_crawl_mode_input : Err → CrawlModeInput → Option Err
unfolding is_blank validate_crawl_mode validate_trigger_type
valid_crawl_mode_input blank input =
    require (not (is_blank input.id)) blank
    then_check validate_crawl_mode (trim_space input.crawl_mode)
    then_check validate_trigger_type (trim_space input.trigger_type)

-- The category that validCreateInput checks: the given one, or the one of the type.
unfoldable pub effective_category : CreateInput → String
unfolding trim_space infer_category
effective_category input =
    let category = trim_space input.source_category in
    if category == "" then infer_category (trim_space input.source_type) else category

unfoldable pub valid_create_input : CreateInput → Option Err
unfolding is_blank validate_source_type validate_source_category validate_crawl_mode
    effective_category
valid_create_input input =
    require (not (is_blank input.project_id)) project_id_required
    then_check require (not (is_blank input.name)) name_required
    then_check require (not (is_blank input.source_type)) source_type_required
    then_check validate_source_type (trim_space input.source_type)
    then_check validate_source_category (effective_category input)
    then_check require
        (not (effective_category input == "CRAWL")
          || (not (is_blank input.crawl_mode) && is_positive input.crawl_interval_minutes))
        crawl_config_required
    then_check (if is_blank input.crawl_mode
        then none
        else validate_crawl_mode (trim_space input.crawl_mode))

module _ (env : Env) where
  abbrev pub is_url : Option (String × String) → Bool
  is_url none = false
  is_url (some (scheme, host)) = not (scheme == "") && not (host == "")

  unfoldable pub validate_target_url_values : List String → Option Err
  validate_target_url_values [] = none
  validate_target_url_values (value ∷ values) =
      if is_url (env.request_uri value)
      then validate_target_url_values values
      else some target_values_must_be_urls

  abbrev as_outcome : List String → Option Err → Outcome Err (List String)
  as_outcome values none = ok values
  as_outcome values (some e) = err e

  unfoldable pub prepare_target_values : TargetType → List String → Outcome Err (List String)
  unfolding normalize_target_values validate_target_url_values
  prepare_target_values target_type values =
      let normalized = normalize_target_values values (is_keyword target_type) in
      if is_empty normalized
      then err target_values_required
      else as_outcome normalized
          (if is_keyword target_type then none else validate_target_url_values normalized)

  abbrev both_parsed : Option Json → Option Json → Bool → Bool
  both_parsed (some a) (some b) other = deep_equal a b
  both_parsed _ _ other = other

  unfoldable pub are_json_raw_equal : String → String → Bool
  unfolding deep_equal trim_space
  are_json_raw_equal left right =
      (left == "" && right == "")
      || both_parsed (env.unmarshal left) (env.unmarshal right)
          (trim_space left == trim_space right)

  abbrev values_differ : CrawlTarget → List String → Option (List String) → Bool
  values_differ current normalized none = false
  values_differ current normalized (some values) =
      not (are_string_slices_equal current.values normalized)

  abbrev interval_differs : CrawlTarget → Option ℤ → Bool
  interval_differs current none = false
  interval_differs current (some n) = not (int_eq current.crawl_interval_minutes n)

  abbrev meta_differs : CrawlTarget → Option String → Bool
  meta_differs current none = false
  meta_differs current (some meta) = not (are_json_raw_equal current.platform_meta meta)

  unfoldable pub has_material_target_change : CrawlTarget → List String → UpdateTargetInput → Bool
  unfolding are_string_slices_equal are_json_raw_equal
  has_material_target_change current normalized input =
      values_differ current normalized input.values
      || interval_differs current input.crawl_interval_minutes
      || meta_differs current input.platform_meta

  -- normalizeActivationReadinessCommand, and the check of validActivationReadinessInput that the
  -- result is one of the two commands.
  unfoldable pub normalize_command : String → Option Command
  unfolding trim_space
  normalize_command text =
      let trimmed = trim_space text in
      if trimmed == "" || trimmed == env.activate_text
      then some activate
      else if trimmed == env.resume_text
      then some resume
      else none
