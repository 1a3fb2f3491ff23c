-- ===== src/Execution/Complete.antt =====
-- usecase/consumer.go and usecase/runtime_control.go, with the helpers of usecase/helpers.go that they
-- use: the answer of a crawler, and the cancellation of a project's work.
pub mod Delivery
pub mod Atomic
pub mod Retries
use Prim.Native.String.{◌++◌}
use ingest_srv.Shared.{
  ℕ, zero, suc, String, Bool, true, false, Option, none, some, List, [], ◌∷◌, ◌==◌, ◌||◌, ◌⊎◌, inl,
  inr, ℤ, trim_space, is_blank, to_lower, is_some, if◌then◌else◌,
}
use ingest_srv.Json.{Json, Fields, end, field, num, obj, get}
use ingest_srv.Model.{ExternalTask, RawBatch, JobStatus, is_job}
use ingest_srv.Runtime.{
  World, Exec, Outcome, ok, err, ◌>>=◌, ◌>>◌, pure, fail, check, wrap, reading, attempt, call,
}
use ingest_srv.Execution.Options.{
  StoreErr, task_not_found, batch_already_exists, SuccessOptions, ErrorOptions, CancelOptions,
}
use ingest_srv.Execution.Services.{Services, Storage, Parser, Reply, answer, failure}
use ingest_srv.Execution.Store.Cancel.{cancel_project_runtime}
use ingest_srv.Execution.Store.Completion.{
  get_completion_context, has_raw_batch, complete_task_success, complete_task_error,
}
use ingest_srv.Execution.Types.{
  Err, cancel_runtime_failed, completion_task_not_found, invalid_completion_input, of_store,
  CancelInput, CompletionInput,
}

pub data Kind : Type 0 where
  success error unknown : Kind

-- strings.ToLower(strings.TrimSpace(input.Status))
unfoldable pub kind_of : String → Kind
unfolding trim_space to_lower
kind_of status =
    let text = to_lower (trim_space status) in
    if text == "success" then success else if text == "error" then error else unknown

abbrev pub kind_ok : Kind → CompletionInput → Bool
kind_ok success input =
    if is_blank input.storage_bucket || is_blank input.storage_path
    then false
    else if is_blank input.batch_id
    then false
    else true
kind_ok error input = true
kind_ok unknown input = false

unfoldable pub validate_completion_input : CompletionInput → Option Err
unfolding is_blank kind_of
validate_completion_input input =
    if is_blank input.task_id
    then some invalid_completion_input
    else if kind_ok (kind_of input.status) input
    then none
    else some invalid_completion_input

unfoldable pub is_terminal_failure : JobStatus → Bool
is_terminal_failure JobStatus.failed = true
is_terminal_failure JobStatus.cancelled = true
is_terminal_failure _ = false

abbrev pub completion_error : StoreErr → Err
completion_error task_not_found = completion_task_not_found
completion_error e = of_store e

-- The task was cancelled, and a completion for it is ignored.
unfoldable pub is_cancelled : ExternalTask → Bool
is_cancelled t = if is_job JobStatus.cancelled t.status then is_some t.completed_at else false

-- The task has failed before, and a second error is ignored.
unfoldable pub has_failed : ExternalTask → Bool
unfolding is_terminal_failure
has_failed t = if is_terminal_failure t.status then is_some t.completed_at else false

abbrev pub error_message : String → String
error_message text =
    if trim_space text == ""
    then "crawler returned error completion without error message"
    else trim_space text

abbrev pub time_or : ℕ → Option ℕ → ℕ
time_or now none = now
time_or now (some at) = at

module _ (sv : Services) where
  abbrev pub missing : String → String → String
  missing bucket path = "minio object missing bucket=" ++ bucket ++ " path=" ++ path

  abbrev pub stat : Storage → String → String → Reply Bool → Exec Err (Reply ℤ)
  stat st bucket path (answer true) = call (st.file_info bucket path)
  stat st bucket path (answer false) = pure (failure (missing bucket path))
  stat st bucket path (failure e) = pure (failure e)

  -- One attempt: the object exists and its size is known.
  unfoldable pub verify_once : Storage → String → String → Exec Err (Reply ℤ)
  verify_once st bucket path = do
    exists ← call (st.file_exists bucket path)
    stat st bucket path exists

  abbrev pub or_again : (String → Exec Err (Reply ℤ)) → Reply ℤ → Exec Err (Reply ℤ)
  or_again again (answer size) = pure (answer size)
  or_again again (failure e) = again e

  -- The loop, with the attempts that are left and the last error.
  unfoldable pub verify_from : ℕ → String → Storage → String → String → Exec Err (Reply ℤ)
  verify_from zero last st bucket path = pure (failure last)
  verify_from (suc n) last st bucket path = do
    result ← verify_once st bucket path
    or_again (λ e. verify_from n e st bucket path) result

  abbrev pub verify_with : Option Storage → String → String → Exec Err (Reply ℤ)
  verify_with none bucket path = pure (failure "minio client is not initialized")
  verify_with (some st) bucket path = verify_from 3 "" st bucket path

  -- verifyMinIOObject: MinioVerifyRetryAttempts is 3; the pause between two attempts has no effect on
  -- the world.
  unfoldable pub verify_minio_object : String → String → Exec Err (Reply ℤ)
  verify_minio_object bucket path = verify_with sv.storage bucket path

  -- parseInt64, of a number of a JSON document.
  abbrev pub parse_int64 : Option Json → Option ℤ
  parse_int64 (some (num n)) = some (sv.integer n)
  parse_int64 _ = none

  abbrev pub size_or : ℤ → Option ℤ → Option ℤ
  size_or size none = some size
  size_or size (some n) = some n

  abbrev pub marshal_metadata : Fields → String
  marshal_metadata end = ""
  marshal_metadata (field k v fs) = sv.base.marshal (obj (field k v fs))

  unfoldable pub success_options : CompletionInput → ExternalTask → ℕ → ℤ → SuccessOptions
  unfolding get
  success_options input task at size = record {
    task = task;
    batch_id = input.batch_id;
    storage_bucket = input.storage_bucket;
    storage_path = input.storage_path;
    checksum = input.checksum;
    item_count = input.item_count;
    size_bytes = size_or size (parse_int64 (get input.metadata "size_bytes"));
    domain_type_code = task.domain_type_code;
    raw_metadata = marshal_metadata input.metadata;
    completed_at = at;
  }

  abbrev pub error_options : ExternalTask → String → ℕ → ErrorOptions
  error_options task message at = record { task = task; error_message = message; completed_at = at }

  abbrev pub parse_with : Option Parser → RawBatch → ExternalTask → ℕ → Exec Err (Unit {0})
  parse_with none batch task at = pure tt
  parse_with (some p) batch task at =
      if p.supports_parse task.platform task.task_type
      then (λ w. (ok tt, p.parse_and_store batch task at w))
      else pure tt

  abbrev pub recorded : ExternalTask → ℕ → RawBatch ⊎ StoreErr → Exec Err (Unit {0})
  recorded task at (inl batch) = parse_with sv.parser batch task at
  recorded task at (inr batch_already_exists) = pure tt
  recorded task at (inr e) = fail (of_store e)

  abbrev pub verified : CompletionInput → ExternalTask → ℕ → Reply ℤ → Exec Err (Unit {0})
  verified input task at (failure message) =
      wrap of_store (complete_task_error sv (error_options task message at))
  verified input task at (answer size) = do
    result ← attempt (complete_task_success sv (success_options input task at size))
    recorded task at result

  abbrev pub if_new : CompletionInput → ExternalTask → ℕ → Bool → Exec Err (Unit {0})
  if_new input task at true = pure tt
  if_new input task at false = do
    size ← verify_minio_object input.storage_bucket input.storage_path
    verified input task at size

  -- The switch on the status.
  unfoldable pub handle_kind : Kind → CompletionInput → ExternalTask → ℕ → Exec Err (Unit {0})
  unfolding success_options
  handle_kind error input task at =
      if has_failed task
      then pure tt
      else wrap of_store
          (complete_task_error sv (error_options task (error_message input.error) at))
  handle_kind success input task at = do
    exists ← wrap of_store (has_raw_batch task.source_id input.batch_id)
    if_new input task at exists
  handle_kind unknown input task at = fail invalid_completion_input

  abbrev pub unless_cancelled : CompletionInput → ExternalTask → Exec Err (Unit {0})
  unless_cancelled input task = if is_cancelled task then pure tt else do
    now ← reading sv.base
    handle_kind (kind_of input.status) input task (time_or now (sv.parse_time input.completed_at))

  unfoldable pub handle_completion : CompletionInput → Exec Err (Unit {0})
  unfolding validate_completion_input
  handle_completion input = do
    check (validate_completion_input input)
    task ← wrap completion_error (get_completion_context input.task_id)
    unless_cancelled input task

  abbrev pub runtime_options : CancelInput → CancelOptions
  runtime_options input = record {
    project_id = trim_space input.project_id;
    reason = trim_space input.reason;
    canceled_at = input.canceled_at;
  }

  -- CancelProjectRuntime of the use case.
  unfoldable pub cancel_runtime : CancelInput → Exec Err (Unit {0})
  unfolding trim_space
  cancel_runtime input =
      if trim_space input.project_id == ""
      then fail cancel_runtime_failed
      else wrap (λ e. cancel_runtime_failed)
          (cancel_project_runtime sv.base (runtime_options input))
