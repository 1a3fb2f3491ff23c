-- ===== src/Datasource/Targets/Spares.antt =====
-- ActivateTarget writes no dry run.
use ingest_srv.Shared.{String, Bool, true, false, Option, none, some, ◌≡◌, refl, arith}
use ingest_srv.Model.{DataSource, CrawlTarget, SourceStatus}
use ingest_srv.Runtime.{World, Env, Exec}
use ingest_srv.Runtime.Steps.{
  Reads, Reads-pure, Reads-fail, Reads-query, Reads-check, Reads-wrap, Reads-bind, Reads-reading,
}
use ingest_srv.Runtime.Spares.{Spares, Spares-Reads, Spares-bind, Spares-wrap, Spares-statement}
use ingest_srv.Repository.Options.{UpdateDataSourceOptions, UpdateTargetOptions}
use ingest_srv.Repository.Sources as Sources
use ingest_srv.Repository.Targets as Targets
use ingest_srv.Datasource.Effects.{Reads-detail}
use ingest_srv.Datasource.Guards.Reads.{Reads-target_not_running}
use ingest_srv.Datasource.Types.{Err, TargetInput}
use ingest_srv.Datasource.Targets.{
  activate_target, promote, promote_if, need_usable, when, activate_unless, set_active,
}

module _ (env : Env) where
  Reads-found_target : (o : Option CrawlTarget) → Reads (Targets.found_target env o)
  Reads-found_target none = Reads-fail _
  Reads-found_target (some t) = Reads-pure t

  pub Reads-get_target : (source_id id : String) → Reads (Targets.get_target env source_id id)
  unfolding Targets.get_target
  Reads-get_target source_id id = Reads-bind _ _ (Reads-query _ _) (λ row. Reads-found_target row)

  save_target-dryruns :
      (t : CrawlTarget) (w : World) (r : CrawlTarget × World)
      → Targets.save env t w ≡ some r
      → r.1.dryruns ≡ w.dryruns
  unfolding Targets.save
  save_target-dryruns t w r h = ground arith

  save_source-dryruns :
      (o : Option DataSource) (w : World) (r : DataSource × World)
      → Sources.save env o w ≡ some r
      → r.1.dryruns ≡ w.dryruns
  unfolding Sources.save
  save_source-dryruns none w r h = cc
  save_source-dryruns (some s) w r h = ground arith

  Spares-update_row :
      (opt : UpdateTargetOptions) (o : Option CrawlTarget) → Spares (Targets.update_row env opt o)
  Spares-update_row opt none = Spares-Reads (Reads-fail _)
  Spares-update_row opt (some t) = Spares-statement _ _ (λ w r h. save_target-dryruns _ w r h)

  Spares-update_target : (opt : UpdateTargetOptions) → Spares (Targets.update_target env opt)
  unfolding Targets.update_target
  Spares-update_target opt =
      Spares-bind _ _ (Spares-Reads (Reads-query _ _)) (λ row. Spares-update_row opt row)

  pub Reads-status_time : (o : Option SourceStatus) → Reads (Sources.status_time env o)
  Reads-status_time none = Reads-pure 0
  Reads-status_time (some s) = Reads-reading env

  Spares-update_source_row :
      (opt : UpdateDataSourceOptions) (o : Option DataSource)
      → Spares (Sources.update_row env opt o)
  Spares-update_source_row opt none = Spares-Reads (Reads-pure none)
  Spares-update_source_row opt (some s) =
      Spares-bind _ _ (Spares-Reads (Reads-status_time opt.status)) (λ now.
        Spares-bind _ _ (Spares-statement _ _ (λ w r h. save_source-dryruns _ w r h))
          (λ saved. Spares-Reads (Reads-pure (some saved))))

  pub Spares-update_source :
      (opt : UpdateDataSourceOptions) → Spares (Sources.update_data_source env opt)
  unfolding Sources.update_data_source
  Spares-update_source opt =
      Spares-bind _ _ (Spares-Reads (Reads-query _ _)) (λ row. Spares-update_source_row opt row)

  Spares-when : (b : Bool) (m : Exec Err (Unit {0})) → Spares m → Spares (when b m)
  Spares-when true m sm = sm
  Spares-when false m sm = Spares-Reads (Reads-pure tt)

  Reads-need_usable : (id : String) → Reads (need_usable env id)
  unfolding Sources.get_latest_dryrun_by_target
  Reads-need_usable id = Reads-bind _ _ (Reads-wrap _ _ (Reads-query _ _)) (λ latest. Reads-check _)

  Spares-promote_if : (id : String) (b : Bool) → Spares (promote_if env id b)
  Spares-promote_if id false = record { spared = λ w. refl; calm = record { calm = λ w p. cc } }
  Spares-promote_if id true = record {
    spared = λ w. (Spares-update_source _).spared w;
    calm = record { calm = λ w p. cc };
  }

  Spares-promote : (needed : Bool) (source : Option DataSource) → Spares (promote env needed source)
  Spares-promote needed none = Spares-Reads (Reads-pure tt)
  Spares-promote needed (some s) = Spares-promote_if s.id _

  Spares-activate_unless :
      (input : TargetInput) (needed : Bool) (source : Option DataSource) (current : CrawlTarget)
      (active : Bool)
      → Spares (activate_unless env input needed source current active)
  Spares-activate_unless input needed source current true = Spares-Reads (Reads-pure current)
  Spares-activate_unless input needed source current false =
      Spares-bind _ _ (Spares-when needed _ (Spares-Reads (Reads-need_usable current.id))) (λ _.
        Spares-bind _ _ (Spares-wrap _ _ (Spares-update_target (set_active env input true)))
          (λ updated.
            Spares-bind _ _ (Spares-promote needed source)
              (λ _. Spares-Reads (Reads-pure updated))))

  pub Spares-activate_target : (input : TargetInput) → Spares (activate_target env input)
  unfolding activate_target
  Spares-activate_target input = Spares-bind _ _ (Spares-Reads (Reads-check _)) (λ _.
      Spares-bind _ _ (Spares-Reads (Reads-wrap _ _ (Reads-get_target _ _))) (λ current.
        Spares-bind _ _ (Spares-Reads (Reads-wrap _ _ (Reads-detail env _))) (λ source.
          Spares-bind _ _ (Spares-when _ _ (Spares-Reads (Reads-target_not_running env current.id)))
            (λ _. Spares-activate_unless input _ source current current.is_active))))
