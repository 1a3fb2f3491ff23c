-- ===== src/Tests/Dryrun.antt =====
-- An artifact with three videos of a search and what a dry run keeps of it, and a failed dry run.
use ingest_srv.Shared.{
  String, true, false, none, some, List, [], ◌∷◌, ◌≡◌, refl, ℤ, pos, ◌==◌, trim_space,
  if◌then◌else◌, update_where, to_lower, is_blank, map, inr,
}
use ingest_srv.Json.{Json, Fields, num, str, arr, obj, nil, cons, end, field, get}
use ingest_srv.Model.{
  DryrunStatus, DryrunResult, Message, is_terminal_dryrun_status, is_usable_dryrun_status,
}
use ingest_srv.Runtime.{
  Env, World, transaction, statement, query, pure, ◌>>=◌, wrap, check, reading, new_id, call,
  attempt, fail,
}
use ingest_srv.Dryrun.Sample.{
  Warning, UpdateResultOptions, collection, object_of, sample_limit, build_success_update,
  build_sample_payload, of_payload, truncate_items, total_of_collection, normalize_total_found,
  append_warning_from_params, marshal_json, parse_int,
}
use ingest_srv.Dryrun.Sample.Bounds.{params_of, limit_of, Kept, build_success_update-Kept}
use ingest_srv.Repository.Sources.{row_ok, replace}
use ingest_srv.Repository.Sources as Sources
use ingest_srv.Repository.Targets as Targets
use ingest_srv.Datasource.Validate.{valid_data_source_id, valid_target_input}
use ingest_srv.Dryrun.Store.{
  CompleteResultOptions, complete_result, complete_body, completion_time, apply_result, sync_source,
  save_result,
}
use ingest_srv.Dryrun.Store.Completes.{Completes, complete_result-Completes}
use ingest_srv.Datasource.Crud.{detail}
use ingest_srv.Datasource.Targets.{detail_target}
use ingest_srv.Datasource.Dryrun.{mark_dryrun_running}
use ingest_srv.Execution.Specs.{extract_keywords}
use ingest_srv.Dryrun.Types.{DryrunServices, HandleCompletionInput, TriggerInput}
use ingest_srv.Dryrun.Results.{get_by_job_id, get_latest, create_result}
use ingest_srv.Dryrun.Plan.{
  normalize_sample_limit, build_dispatch_spec, build_keyword_dispatch_spec,
}
use ingest_srv.Dryrun.Trigger.{
  trigger, validate_trigger_input, get_source, target_for, get_target, publish_dispatch,
}
use ingest_srv.Dryrun.Trigger.Guarded.{Guarded, trigger-Guarded}
use ingest_srv.Dryrun.Complete.{
  handle_completion, validate_completion_input, is_over, finish, finish_with, parse_completed_at,
}
use ingest_srv.Dryrun.Complete.Ends.{Finishes}
use ingest_srv.Dryrun.Complete.Finishes.{handle_completion-Finishes}
use ingest_srv.Tests.{env, world}

abbrev videos : Json
videos = obj (
    field "videos" (arr (cons (str "a") (cons (str "b") (cons (str "c") nil))))
      (field "total_posts" (num "40") end))

abbrev artifact : Fields
artifact = field "params" (obj (field "limit" (num "2") end)) (field "result" videos end)

abbrev artifact_env : Env
artifact_env = record env {
  unmarshal = λ s. if s == "artifact" then some (obj artifact) else some videos;
  marshal = λ d. "videos";
}

abbrev integer : String → ℤ
integer s = if s == "2" then pos 2 else if s == "40" then pos 40 else pos 0

abbrev no_warnings : String → List Warning
no_warnings s = []

-- Two of the three videos are kept, and the total is the one that the crawler states.
sampled_videos :
    build_success_update artifact_env integer no_warnings "artifact" (some (pos 7)) ≡ record {
      id = "";
      status = DryrunStatus.success;
      sample_count = 2;
      completed_at = none;
      total_found = some (pos 40);
      sample_data = "videos";
      warnings = "";
      error_message = "";
    }
unfolding build_success_update build_sample_payload of_payload truncate_items total_of_collection
    normalize_total_found append_warning_from_params marshal_json parse_int sample_limit collection
    get trim_space
sampled_videos = refl

-- The limit of the artifact holds.
abbrev kept_of_artifact : UpdateResultOptions
kept_of_artifact = build_success_update artifact_env integer no_warnings "artifact" (some (pos 7))

build_success_update-Kept_example :
    Kept artifact_env
      (limit_of integer (get (params_of (object_of (artifact_env.unmarshal "artifact"))) "limit"))
      kept_of_artifact.sample_count
      kept_of_artifact.sample_data
build_success_update-Kept_example =
    build_success_update-Kept artifact_env integer no_warnings "artifact" (some (pos 7))

abbrev running : DryrunResult
running = record {
  id = "d";
  source_id = "ready";
  project_id = "project";
  target_id = "t";
  job_id = "task";
  status = DryrunStatus.running;
  sample_count = 0;
  total_found = none;
  sample_data = "";
  warnings = "";
  error_message = "";
  requested_by = "user";
  started_at = some 1;
  completed_at = none;
  created_at = 1;
}

abbrev running_world : World
running_world = record world { dryruns = running ∷ [] }

abbrev failure : CompleteResultOptions
failure = record {
  id = "d";
  status = DryrunStatus.failed;
  sample_count = 0;
  completed_at = some 9;
  total_found = none;
  sample_data = "";
  warnings = "";
  error_message = "blocked";
  activate_target = false;
}

-- The row of the dry run gets its status, the given time and the message.
failed_run :
    (complete_result env failure running_world).1.dryruns
    ≡ record running {
      status = DryrunStatus.failed;
      completed_at = some 9;
      error_message = "blocked";
    }
      ∷ []
unfolding complete_result complete_body completion_time apply_result sync_source save_result
    Sources.save row_ok replace update_where transaction statement query pure ◌>>=◌
failed_run = refl

-- A failed dry run of a READY data source.
complete_result-Completes_example :
    Completes failure running_world (complete_result env failure running_world)
complete_result-Completes_example = complete_result-Completes env failure running_world

abbrev crawler : DryrunServices
crawler = record {
  base = env;
  integer = integer;
  decode_warnings = no_warnings;
  parse_time = λ s. some 9;
  publisher = some (λ m w. true);
  read_file = λ path w. inr "no such file";
  download = none;
  tiktok_queue = "tiktok_tasks";
  facebook_queue = "facebook_tasks";
  youtube_queue = "youtube_tasks";
}

abbrev blocked : HandleCompletionInput
blocked = record {
  task_id = " task";
  status = "Error";
  completed_at = "2026-01-01T00:00:00Z";
  storage_bucket = "";
  storage_path = "";
  item_count = none;
  error = "blocked";
}

-- The completion that the crawler reports as an error ends the dry run as `failure` does.
blocked_run :
    (handle_completion crawler blocked running_world).1.dryruns
    ≡ (complete_result env failure running_world).1.dryruns
unfolding handle_completion validate_completion_input get_by_job_id is_over finish finish_with
    parse_completed_at is_terminal_dryrun_status is_usable_dryrun_status trim_space to_lower
    is_blank wrap check complete_result complete_body completion_time apply_result sync_source
    save_result Sources.save row_ok replace update_where transaction statement query pure ◌>>=◌
blocked_run = refl

handle_completion-Finishes_example :
    Finishes blocked running_world (handle_completion crawler blocked running_world)
handle_completion-Finishes_example = handle_completion-Finishes crawler blocked running_world

abbrev wanted : TriggerInput
wanted = record { source_id = "ready"; target_id = " t "; sample_limit = none; force = false }

-- A dry run of the first keyword of the target is created and sent.
trigger_test :
    map (λ (m : Message). m.queue) (trigger crawler wanted world).1.sent ≡ "tiktok_tasks" ∷ []
unfolding trigger validate_trigger_input get_source detail target_for get_target detail_target
    get_latest build_dispatch_spec build_keyword_dispatch_spec extract_keywords
    normalize_sample_limit create_result mark_dryrun_running publish_dispatch trim_space is_blank
    wrap check statement query pure ◌>>=◌ reading new_id call attempt fail valid_data_source_id
    Sources.detail_data_source valid_target_input Targets.get_target Sources.update_data_source
    Sources.save Sources.apply_options
trigger_test = refl

trigger-Guarded_example : Guarded crawler wanted world (trigger crawler wanted world)
trigger-Guarded_example = trigger-Guarded crawler wanted world
