-- ===== src/Dryrun/Trigger/Finds.antt =====
-- What getSource and getTarget say of the tables when they succeed.
use ingest_srv.Shared.{String, Option, none, some, ◌≡◌, ◌∙◌, ap, sym, trim_space, trim_space_idem}
use ingest_srv.Model.{DataSource, CrawlTarget}
use ingest_srv.Runtime.{World, Env, ok, pure, fail}
use ingest_srv.Runtime.Steps.{query_value, wrap_value}
use ingest_srv.Runtime.Values.{bind_value, check_value, pure_value}
use ingest_srv.Repository.Sources as Sources
use ingest_srv.Repository.Targets as Targets
use ingest_srv.Datasource.Effects.{detail_value, live_row}
use ingest_srv.Datasource.Guards.{found}
use ingest_srv.Datasource.Crud.{detail}
use ingest_srv.Datasource.Targets.{detail_target}
use ingest_srv.Dryrun.Types.{DryrunServices}
use ingest_srv.Dryrun.Trigger.{get_source, get_target}

found_there :
    (o : Option DataSource) (s : DataSource) (w : World) → (found o w).0 ≡ ok s → o ≡ some s
unfolding pure fail
found_there none s w h = cc
found_there (some x) s w h = cc

module _ (env : Env) where
  found_target_there :
      (o : Option CrawlTarget) (t : CrawlTarget) (w : World)
      → (Targets.found_target env o w).0 ≡ ok t
      → o ≡ some t
  unfolding pure fail
  found_target_there none t w h = cc
  found_target_there (some x) t w h = cc

  detail_there :
      (id : String) (w : World) (s : DataSource)
      → (detail env id w).0 ≡ ok s
      → Sources.live (Sources.find (trim_space id) w.sources) ≡ some s
  unfolding detail
  detail_there id w s h =
      let past = (check_value _ _ w h).1 in
      let (o, is, last) = bind_value _ _ w past in
      detail_value env (trim_space id) w (wrap_value _ _ w is) ∙ found_there o s _ last

  stored_target :
      (source_id id : String) (w : World) (t : CrawlTarget)
      → (Targets.get_target env source_id id w).0 ≡ ok t
      → Targets.find source_id id w.targets ≡ some t
  unfolding Targets.get_target
  stored_target source_id id w t h =
      let (o, is, last) = bind_value _ _ w h in query_value _ _ w is ∙ found_target_there o t _ last

module _ (sv : DryrunServices) where
  -- The data source is in the table, and not deleted.
  pub source_there :
      (id : String) (w : World) (s : DataSource)
      → (get_source sv id w).0 ≡ ok s
      → (Sources.find (trim_space id) w.sources ≡ some s) × (s.deleted_at ≡ none)
  unfolding get_source
  source_there id w s h =
      let (x, is, last) = bind_value _ _ w h in
      let same = pure_value x s _ (check_value _ _ _ last).1 in
      let row = detail_there sv.base (trim_space id) w x (wrap_value _ _ w is) in
      let (here, key, undeleted) = live_row (trim_space (trim_space id)) w.sources row in
      (
        ap (λ i. Sources.find i w.sources) (sym (trim_space_idem id)) ∙ here ∙ ap some same,
        ap (λ (y : DataSource). y.deleted_at) (sym same) ∙ undeleted,
      )

  pub target_there :
      (source_id id : String) (w : World) (t : CrawlTarget)
      → (get_target sv source_id id w).0 ≡ ok t
      → Targets.find (trim_space source_id) (trim_space id) w.targets ≡ some t
  unfolding get_target detail_target
  target_there source_id id w t h =
      let (x, is, last) = bind_value _ _ w h in
      let same = pure_value x t _ (check_value _ _ _ last).1 in
      let past = (check_value _ _ w (wrap_value _ _ w is)).1 in
      let here = stored_target sv.base _ _ w x (wrap_value _ _ w past) in
      ap (λ i. Targets.find i (trim_space id) w.targets) (sym (trim_space_idem source_id))
      ∙ ap (λ i. Targets.find (trim_space (trim_space source_id)) i w.targets)
          (sym (trim_space_idem id))
      ∙ here
      ∙ ap some same
