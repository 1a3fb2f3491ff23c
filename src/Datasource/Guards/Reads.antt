-- ===== src/Datasource/Guards/Reads.antt =====
-- The checks of the use cases only read the database, whatever they answer.
use ingest_srv.Shared.{
  ℕ, ◌+◌, String, Bool, true, false, Option, none, some, List, [], ◌∷◌, ◌≡◌, inl, inr, Bool-cases,
  arith,
}
use ingest_srv.Model.{
  TargetType, CrawlTarget, DataSource, SourceStatus, SourceType, SourceCategory, crawl, passive,
  is_dryrun_required, is_status,
}
use ingest_srv.Runtime.{World, Env, statement, spent}
use ingest_srv.Runtime.Steps.{
  Reads, Reads-pure, Reads-fail, Reads-query, Reads-check, Reads-wrap, Reads-bind, statement_cases,
  SameTables-spent, reads_rules,
}
use ingest_srv.Repository.Options.{failed_to_get, target_failed_to_list}
use ingest_srv.Repository.Sources.{get_latest_dryrun_by_target}
use ingest_srv.Repository.Targets.{list_targets, list_statement, type_filter, count_active_targets}
use ingest_srv.Datasource.Types.{Err}
use ingest_srv.Datasource.Effects.{Reads-detail}
use ingest_srv.Datasource.Guards.{
  none_running, get_latest_dryrun_status_by_target, ensure_datasource_targets_dryrun_not_running,
  ensure_target_dryrun_not_running, ensure_can_remove_active_target, check_targets,
  ensure_runtime_prerequisites, category_prerequisites, ensure_project_available, found,
}

-- A statement that gives the world back only reads.
Reads-statement :
    {E : Type 0} {A : Type 0} (e : E) (run : World → Option (A × World))
    → ((w : World) (r : A × World) → run w ≡ some r → r.1 ≡ w)
    → Reads (statement e run)
Reads-statement e run still = record {
  at = λ w. elim (statement_cases e run w) [
    | inl fails ↦ rw fails (SameTables-spent w)
    | inr (r, accepted, runs) ↦ rw (runs, still (spent w) r accepted) (SameTables-spent w)
  ];
  calm = λ w. elim (statement_cases e run w) [
    | inl fails ↦ rw fails (λ p. cc)
    | inr (r, accepted, runs) ↦ rw runs (λ p. cc)
  ];
}

module _ (env : Env) where
  Reads-latest : (id : String) → Reads (get_latest_dryrun_by_target env id)
  unfolding get_latest_dryrun_by_target
  Reads-latest id = Reads-query failed_to_get _

  Reads-latest_status : (id : String) → Reads (get_latest_dryrun_status_by_target env id)
  unfolding get_latest_dryrun_status_by_target
  Reads-latest_status id = search (reads_rules, Reads-latest)

  list_still :
      (id : String) (t : Option (Option TargetType)) (active : Option Bool) (w : World)
      (r : List CrawlTarget × World)
      → list_statement env id t active w ≡ some r
      → r.1 ≡ w
  list_still id none active w r h = cc
  list_still id (some t) active w r h = ground arith

  pub Reads-list : (id t : String) (active : Option Bool) → Reads (list_targets env id t active)
  unfolding list_targets
  Reads-list id t active =
      Reads-statement target_failed_to_list _ (list_still id (type_filter env t) active)

  pub Reads-count : (id : String) → Reads (count_active_targets env id)
  unfolding count_active_targets
  Reads-count id = Reads-query failed_to_get _

  Reads-none_running : (ts : List CrawlTarget) → Reads (none_running env ts)
  unfolding none_running
  Reads-none_running [] = Reads-pure tt
  Reads-none_running (t ∷ ts) =
      Reads-bind _ _ (Reads-latest_status t.id)
        (λ status. Reads-bind _ _ (Reads-check _) (λ _. Reads-none_running ts))

  pub Reads-none_running_of :
      (id : String) → Reads (ensure_datasource_targets_dryrun_not_running env id)
  unfolding ensure_datasource_targets_dryrun_not_running
  Reads-none_running_of id = search (reads_rules, Reads-list, Reads-none_running)

  pub Reads-target_not_running : (id : String) → Reads (ensure_target_dryrun_not_running env id)
  unfolding ensure_target_dryrun_not_running
  Reads-target_not_running id = search (reads_rules, Reads-latest_status)

  pub Reads-found : (o : Option DataSource) → Reads (found o)
  Reads-found none = Reads-fail _
  Reads-found (some s) = Reads-pure s

  Reads-check_targets :
      (source_type : Option SourceType) (e : Err) (ts : List CrawlTarget) (n : ℕ)
      → Reads (check_targets env source_type e ts n)
  unfolding check_targets is_dryrun_required
  Reads-check_targets source_type e [] n = Reads-pure n
  Reads-check_targets source_type e (t ∷ ts) n = elim (Bool-cases t.is_active) [
    | inl active ↦ rw active (Reads-check_targets source_type e ts (n + 1))
    | inr idle ↦ rw idle (Reads-check_targets source_type e ts n)
  ]

  Reads-category :
      (category : SourceCategory) (s : DataSource) (e : Err)
      → Reads (category_prerequisites env category s e)
  Reads-category crawl s e = Reads-bind _ _ (Reads-check _) (λ _.
      Reads-bind _ _ (Reads-wrap _ _ (Reads-list _ _ _))
        (λ ts. Reads-bind _ _ (Reads-check_targets _ _ ts _) (λ n. Reads-check _)))
  Reads-category passive s e = Reads-check _

  pub Reads-prerequisites :
      (s : DataSource) (e : Err) → Reads (ensure_runtime_prerequisites env s e)
  unfolding ensure_runtime_prerequisites
  Reads-prerequisites s e = Reads-category s.source_category s e

  pub Reads-can_remove :
      (id : String) (active : Bool) (e : Err)
      → Reads (ensure_can_remove_active_target env id active e)
  unfolding ensure_can_remove_active_target
  Reads-can_remove id false e = Reads-pure tt
  Reads-can_remove id true e = Reads-bind _ _ (Reads-wrap _ _ (Reads-detail env _)) (λ row.
      Reads-bind _ _ (Reads-found row) (λ s.
        elim (Bool-cases (is_status s.status SourceStatus.active)) [
          | inl active ↦
              rw active (Reads-bind _ _ (Reads-wrap _ _ (Reads-count _)) (λ n. Reads-check _))
          | inr idle ↦ rw idle (Reads-pure tt)
        ]))

  pub Reads-project : (id : String) → Reads (ensure_project_available env id)
  unfolding ensure_project_available
  Reads-project id = Reads-check _
