-- ===== src/Datasource/Crud.antt =====
-- usecase/datasource.go: Create, Detail, Update, Archive and Delete of a data source.
pub mod Transitions
use ingest_srv.Shared.{
  String, Bool, true, false, none, some, ◌==◌, ◌&&◌, ◌||◌, not, is_some, trim_space, if◌then◌else◌,
}
use ingest_srv.Model.{DataSource, SourceStatus, is_status}
use ingest_srv.Runtime.{Exec, Env, ◌>>=◌, ◌>>◌, pure, fail, check, wrap}
use ingest_srv.Repository.Options.{
  RepoErr, failed_to_get, CreateDataSourceOptions, UpdateDataSourceOptions, update_of,
}
use ingest_srv.Repository.Sources.{
  create_data_source, detail_data_source, update_data_source, archive_data_source,
  delete_data_source,
}
use ingest_srv.Datasource.Types.{
  Err, not_found, create_failed, update_failed, update_not_allowed, delete_failed,
  delete_requires_archived, CreateInput, UpdateInput,
}
use ingest_srv.Datasource.Validate.{valid_create_input, valid_data_source_id, valid_update_input}
use ingest_srv.Datasource.Guards.{
  found, ensure_project_available, ensure_datasource_targets_dryrun_not_running,
}

-- The error of ArchiveDataSource and DeleteDataSource for the client.
abbrev delete_error : RepoErr → Err
delete_error failed_to_get = not_found
delete_error _ = delete_failed

module _ (env : Env) where
  unfoldable pub create_options : CreateInput → CreateDataSourceOptions
  unfolding trim_space
  create_options input = record {
    project_id = trim_space input.project_id;
    name = trim_space input.name;
    description = input.description;
    source_type = trim_space input.source_type;
    source_category = trim_space input.source_category;
    config = input.config;
    account_ref = input.account_ref;
    mapping_rules = input.mapping_rules;
    crawl_mode = trim_space input.crawl_mode;
    crawl_interval_minutes = input.crawl_interval_minutes;
    webhook_id = input.webhook_id;
    webhook_secret_encrypted = input.webhook_secret_encrypted;
    created_by = env.user_id;
  }

  unfoldable pub create : CreateInput → Exec Err DataSource
  unfolding create_options
  create input = do
    check (valid_create_input input)
    ensure_project_available env input.project_id
    wrap (λ _. create_failed) (create_data_source env (create_options input))

  unfoldable pub detail : String → Exec Err DataSource
  detail id = do
    check (valid_data_source_id id)
    row ← wrap (λ _. not_found) (detail_data_source env (trim_space id))
    found row

  unfoldable pub changes_config : UpdateInput → Bool
  changes_config input = not (input.config == "") || not (input.mapping_rules == "")

  unfoldable pub update_options : UpdateInput → UpdateDataSourceOptions
  unfolding trim_space changes_config
  update_options input = record (update_of (trim_space input.id)) {
    name = trim_space input.name;
    description = input.description;
    config = input.config;
    account_ref = input.account_ref;
    mapping_rules = input.mapping_rules;
    crawl_interval_minutes = input.crawl_interval_minutes;
    dryrun_status = if changes_config input then "NOT_REQUIRED" else "";
  }

  unfoldable pub changes_runtime : UpdateInput → Bool
  unfolding changes_config
  changes_runtime input = changes_config input || is_some input.crawl_interval_minutes

  unfoldable pub update : UpdateInput → Exec Err DataSource
  unfolding update_options changes_runtime
  update input = do
    check (valid_update_input input)
    row ← wrap (λ _. not_found) (detail_data_source env (trim_space input.id))
    current ← found row
    ensure_datasource_targets_dryrun_not_running env current.id
    check (
        if changes_runtime input && is_status current.status SourceStatus.active
        then some update_not_allowed
        else none)
    result ← wrap (λ _. update_failed) (update_data_source env (update_options input))
    found result

  unfoldable pub archive : String → Exec Err (Unit {0})
  archive id = do
    check (valid_data_source_id id)
    row ← wrap (λ _. not_found) (detail_data_source env (trim_space id))
    current ← found row
    ensure_datasource_targets_dryrun_not_running env current.id
    elim (is_status current.status SourceStatus.archived) [
      | true ↦ pure tt
      | false ↦ wrap delete_error (archive_data_source env (trim_space id))
    ]

  unfoldable pub delete : String → Exec Err (Unit {0})
  delete id = do
    check (valid_data_source_id id)
    row ← wrap (λ _. not_found) (detail_data_source env (trim_space id))
    current ← found row
    ensure_datasource_targets_dryrun_not_running env current.id
    check (
        if is_status current.status SourceStatus.archived
        then none
        else some delete_requires_archived)
    wrap delete_error (delete_data_source env (trim_space id))
