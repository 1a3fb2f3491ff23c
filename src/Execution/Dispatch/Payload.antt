-- ===== src/Execution/Dispatch/Payload.antt =====
-- The parts of usecase/usecase.go and usecase/helpers.go that touch no table: the guard of a dispatch,
-- the summary of its failures, the pieces of the stored payload and of the output.
use Prim.Native.String.{◌++◌}
use ingest_srv.Shared.{
  ℕ, String, Bool, true, false, Option, none, some, List, [], ◌∷◌, ◌==◌, any, length, is_some,
  nat_eq, trim_space, decimal, if◌then◌else◌,
}
use ingest_srv.Json.{Json, Items, Fields, nil, cons, end, field, str, obj}
use ingest_srv.Model.{
  SourceStatus, JobStatus, TriggerType, manual, scheduled, project_event, crisis_event,
  webhook_push, is_status, is_crawl,
}
use ingest_srv.Runtime.{Env, Exec, pure, reading}
use ingest_srv.Execution.Options.{StoreErr, source_not_found, target_not_found, DispatchContext}
use ingest_srv.Execution.Types.{
  Err, dispatch_not_allowed, dispatch_failed, DispatchSpec, DispatchTaskOutput,
}

unfoldable pub validate_dispatch_context : DispatchContext → Option Err
validate_dispatch_context c =
    if is_crawl c.source.source_category
    then if is_status SourceStatus.archived c.source.status
      then some dispatch_not_allowed
      else if c.target.is_active
      then if is_some c.source.crawl_mode then none else some dispatch_not_allowed
      else some dispatch_not_allowed
    else some dispatch_not_allowed

unfoldable pub map_repository_error : StoreErr → Err
map_repository_error source_not_found = Err.source_not_found
map_repository_error target_not_found = Err.target_not_found
map_repository_error _ = dispatch_failed

-- summarizeDispatchFailures: `seen` is the set of the loop.
unfoldable pub unique_messages : List String → List String → List String
unfolding trim_space
unique_messages seen [] = []
unique_messages seen (m ∷ ms) =
    let text = trim_space m in
    let skip = if text == "" then true else any (λ s. s == text) seen in
    let rest = unique_messages (if skip then seen else text ∷ seen) ms in
    if skip then rest else text ∷ rest

abbrev pub join : List String → String
join [] = ""
join (s ∷ []) = s
join (s ∷ t ∷ ss) = s ++ "; " ++ join (t ∷ ss)

abbrev pub summary : ℕ → ℕ → List String → String
summary messages tasks [] = "failed to publish " ++ decimal tasks ++ " external task(s)"
summary messages tasks (s ∷ ss) =
    "dispatch fan-out encountered " ++ decimal messages ++ " failure(s): " ++ join (s ∷ ss)

unfoldable pub summarize_dispatch_failures : List String → ℕ → String
unfolding unique_messages decimal
summarize_dispatch_failures messages tasks =
    summary (length messages) tasks (unique_messages [] messages)

unfoldable pub show_trigger : TriggerType → String
show_trigger manual = "MANUAL"
show_trigger scheduled = "SCHEDULED"
show_trigger project_event = "PROJECT_EVENT"
show_trigger crisis_event = "CRISIS_EVENT"
show_trigger webhook_push = "WEBHOOK_PUSH"

abbrev pub when : Bool → String → Json → Fields → Fields
when true key value rest = field key value rest
when false key value rest = rest

abbrev pub has_params : Fields → Bool
has_params end = false
has_params (field k v fs) = true

abbrev pub task_items : List DispatchSpec → Items
task_items [] = nil
task_items (s ∷ ss) =
    cons
      (obj (
        field "queue" (str s.queue) (
          field "action" (str s.action) (
            when (if s.keyword == "" then false else true) "keyword" (str s.keyword)
              (when (has_params s.params) "params" (obj s.params) end)))))
      (task_items ss)

abbrev pub first_queue : List DispatchSpec → String
first_queue [] = ""
first_queue (s ∷ ss) = s.queue

abbrev pub first_action : List DispatchSpec → String
first_action [] = ""
first_action (s ∷ ss) = s.action

abbrev pub with_trigger : Option TriggerType → Fields → Fields
with_trigger none rest = rest
with_trigger (some t) rest = field "trigger_type" (str (show_trigger t)) rest

abbrev pub or_now {ℓ} : {E : Type ℓ} → Env → ℕ → Exec E ℕ
or_now env at = if nat_eq at 0 then reading env else pure at

abbrev pub task_output : DispatchSpec → String → String → JobStatus → String → DispatchTaskOutput
task_output s external_id task_id status message = record {
  external_task_id = external_id;
  task_id = task_id;
  queue = s.queue;
  action = s.action;
  status = status;
  keyword = s.keyword;
  error_message = message;
}

-- ErrDispatchFailed.Error()
abbrev pub failed_text : String
failed_text = "failed to dispatch external task"

-- A task's output, and the text of its error.
abbrev pub Sent : Type 0
Sent = DispatchTaskOutput × Option String

abbrev pub is_sent : Sent → Bool
is_sent (out, none) = true
is_sent (out, some e) = false

abbrev pub failures : List Sent → List String
failures [] = []
failures ((out, none) ∷ ss) = failures ss
failures ((out, some e) ∷ ss) = e ∷ failures ss

abbrev pub outputs : List Sent → List DispatchTaskOutput
outputs [] = []
outputs ((out, e) ∷ ss) = out ∷ outputs ss
