-- ===== src/Dryrun/Store/Unsent.antt =====
-- CompleteResult and MarkDryrunRunning send no message, and the latter writes no dry run.
use ingest_srv.Shared.{Option, none, some, String, Bool, ◌≡◌, arith, not, ◌||◌, ◌==◌}
use ingest_srv.Model.{DataSource, CrawlTarget, DryrunResult}
use ingest_srv.Runtime.{World, Env}
use ingest_srv.Runtime.Steps.{Reads-pure, Reads-query, Reads-wrap}
use ingest_srv.Runtime.Spares.{Spares, Spares-Reads, Spares-bind, Spares-wrap}
use ingest_srv.Runtime.Unsent.{
  Unsent, Unsent-Reads, Unsent-bind, Unsent-wrap, Unsent-statement, Unsent-transaction, Unsent-if,
}
use ingest_srv.Repository.Options.{UpdateDataSourceOptions}
use ingest_srv.Repository.Sources as Sources
use ingest_srv.Repository.Targets as Targets
use ingest_srv.Datasource.Effects.{Reads-detail}
use ingest_srv.Datasource.Guards.Reads.{Reads-found}
use ingest_srv.Datasource.Dryrun.{mark_dryrun_running}
use ingest_srv.Datasource.Targets.Spares.{Reads-status_time, Spares-update_source}
use ingest_srv.Dryrun.Store.{
  CompleteResultOptions, complete_result, complete_body, activate_row, activate_if, save_result,
}
use ingest_srv.Dryrun.Store.Completes.{
  Reads-found_result, Reads-found_source, Reads-completion_time,
}

save_result-sent :
    (row : DryrunResult) (w : World) (r : Unit {0} × World)
    → save_result row w ≡ some r
    → r.1.sent ≡ w.sent
unfolding save_result
save_result-sent row w r h = ground arith

module _ (env : Env) where
  save_source-sent :
      (o : Option DataSource) (w : World) (r : DataSource × World)
      → Sources.save env o w ≡ some r
      → r.1.sent ≡ w.sent
  unfolding Sources.save
  save_source-sent none w r h = cc
  save_source-sent (some s) w r h = ground arith

  save_target-sent :
      (t : CrawlTarget) (w : World) (r : CrawlTarget × World)
      → Targets.save env t w ≡ some r
      → r.1.sent ≡ w.sent
  unfolding Targets.save
  save_target-sent t w r h = ground arith

  Unsent-activate_row : (o : Option CrawlTarget) → Unsent (activate_row env o)
  Unsent-activate_row none = Unsent-Reads (Reads-pure tt)
  Unsent-activate_row (some t) = Unsent-if t.is_active _ _ (Unsent-Reads (Reads-pure tt)) (
      Unsent-bind _ _ (Unsent-statement _ _ (λ w r h. save_target-sent _ w r h))
        (λ row. Unsent-Reads (Reads-pure tt)))

  Unsent-activate_if : (b : Bool) (id : String) → Unsent (activate_if env b id)
  Unsent-activate_if b id =
      Unsent-if (not b || id == "") _ _ (Unsent-Reads (Reads-pure tt))
        (Unsent-bind _ _ (Unsent-Reads (Reads-query _ _)) (λ row. Unsent-activate_row row))

  Unsent-complete_body : (opt : CompleteResultOptions) → Unsent (complete_body env opt)
  unfolding complete_body
  Unsent-complete_body opt = Unsent-bind _ _ (Unsent-Reads (Reads-query _ _)) (λ _.
      Unsent-bind _ _ (Unsent-Reads (Reads-query _ _)) (λ row.
        Unsent-bind _ _ (Unsent-Reads (Reads-found_result row)) (λ old.
          Unsent-bind _ _ (Unsent-Reads (Reads-completion_time env opt.completed_at opt.status))
            (λ at. Unsent-bind _ _ (Unsent-statement _ _ (λ w r h. save_result-sent _ w r h)) (λ _.
              Unsent-bind _ _ (Unsent-Reads (Reads-query _ _)) (λ owner.
                Unsent-bind _ _ (Unsent-Reads (Reads-found_source owner)) (λ source.
                  Unsent-bind _ _ (Unsent-statement _ _ (λ w r h. save_source-sent _ w r h))
                    (λ saved.
                      Unsent-bind _ _ (Unsent-activate_if opt.activate_target old.target_id) (λ _.
                        Unsent-bind _ _ (Unsent-Reads (Reads-query _ _))
                          (λ _. Unsent-Reads (Reads-pure _)))))))))))

  pub Unsent-complete_result : (opt : CompleteResultOptions) → Unsent (complete_result env opt)
  unfolding complete_result
  Unsent-complete_result opt = Unsent-transaction _ (Unsent-complete_body opt)

  Unsent-update_row :
      (opt : UpdateDataSourceOptions) (o : Option DataSource)
      → Unsent (Sources.update_row env opt o)
  Unsent-update_row opt none = Unsent-Reads (Reads-pure none)
  Unsent-update_row opt (some s) =
      Unsent-bind _ _ (Unsent-Reads (Reads-status_time env opt.status)) (λ now.
        Unsent-bind _ _ (Unsent-statement _ _ (λ w r h. save_source-sent _ w r h))
          (λ saved. Unsent-Reads (Reads-pure (some saved))))

  Unsent-update_source :
      (opt : UpdateDataSourceOptions) → Unsent (Sources.update_data_source env opt)
  unfolding Sources.update_data_source
  Unsent-update_source opt =
      Unsent-bind _ _ (Unsent-Reads (Reads-query _ _)) (λ row. Unsent-update_row opt row)

  pub Unsent-mark_dryrun_running : (id result : String) → Unsent (mark_dryrun_running env id result)
  unfolding mark_dryrun_running
  Unsent-mark_dryrun_running id result =
      Unsent-bind _ _ (Unsent-Reads (Reads-wrap _ _ (Reads-detail env _))) (λ row.
        Unsent-bind _ _ (Unsent-Reads (Reads-found env row))
          (λ s. Unsent-wrap _ _ (Unsent-update_source _)))

  pub Spares-mark_dryrun_running : (id result : String) → Spares (mark_dryrun_running env id result)
  unfolding mark_dryrun_running
  Spares-mark_dryrun_running id result =
      Spares-bind _ _ (Spares-Reads (Reads-wrap _ _ (Reads-detail env _))) (λ row.
        Spares-bind _ _ (Spares-Reads (Reads-found env row))
          (λ s. Spares-wrap _ _ (Spares-update_source env _)))
