-- ===== src/Dryrun/Trigger/Latest.antt =====
-- What GetLatest says of the table, and that the lookups of Trigger only read.
use ingest_srv.Shared.{
  String, Bool, true, false, Option, none, some, ◌≡◌, refl, ◌∙◌, ap, inl, inr, first, if◌then◌else◌,
  subst,
}
use ingest_srv.Model.{DryrunResult, DataSource, is_crawl}
use ingest_srv.Runtime.{World, Outcome, ok, err, pure, fail, query}
use ingest_srv.Runtime.Steps.{
  Reads, Reads-pure, Reads-query, Reads-wrap, Reads-bind, Reads-check, Reads-attempt, Post-bind,
  query_value, query_cases,
}
use ingest_srv.Datasource.Effects.{Reads-detail}
use ingest_srv.Datasource.Guards.Reads.{Reads-found}
use ingest_srv.Datasource.Crud.{detail}
use ingest_srv.Datasource.Targets.{detail_target}
use ingest_srv.Datasource.Targets.Spares.{Reads-get_target}
use ingest_srv.Dryrun.Types.{LatestInput, DryrunServices}
use ingest_srv.Dryrun.Results.{get_latest, in_filter}
use ingest_srv.Dryrun.Store.{ResultErr, result_get_failed, found_result}
use ingest_srv.Dryrun.Store.Completes.{Reads-found_result, result_there}
use ingest_srv.Dryrun.Trigger.{
  trigger, validate_trigger_input, get_source, target_for, crawl_target, no_target, latest_error,
  supported, require,
}
use ingest_srv.Dryrun.Trigger as Trigger

same_error :
    {e e' : ResultErr} (o : Outcome ResultErr DryrunResult) → o ≡ err e' → o ≡ err e → e ≡ e'
same_error o p q = cc

-- What GetLatest says of the table.
pub latest_found :
    (i : LatestInput) (w : World) (d : DryrunResult)
    → (get_latest i w).0 ≡ ok d
    → first (in_filter i) w.dryruns ≡ some d
unfolding get_latest
latest_found i w d =
    Post-bind (λ r. r.0 ≡ ok d → first (in_filter i) w.dryruns ≡ some d) _ _ w (λ e h k. cc)
      (λ h k. cc) (λ o h k. query_value _ _ w h ∙ result_there o d _ k)

not_found_there :
    (o : Option DryrunResult) (e : ResultErr) (w : World) → (found_result o w).0 ≡ err e → o ≡ none
unfolding pure fail
not_found_there none e w h = refl
not_found_there (some d) e w h = cc

query_error :
    (e : ResultErr) (read : World → Option DryrunResult) (w : World) {e' : ResultErr}
    → (query e read w).0 ≡ err e'
    → e' ≡ e
query_error e read w h = elim (query_cases e read w) [
  | inl fails ↦
      let q = ap (λ (r : Outcome ResultErr (Option DryrunResult) × World). r.0) fails in cc
  | inr runs ↦ let q = ap (λ (r : Outcome ResultErr (Option DryrunResult) × World). r.0) runs in cc
]

pub latest_missing :
    (i : LatestInput) (w : World) (e : ResultErr)
    → (get_latest i w).0 ≡ err e
    → latest_error (inr e) ≡ none
    → first (in_filter i) w.dryruns ≡ none
unfolding get_latest
latest_missing i w e =
    Post-bind
      (λ r. r.0 ≡ err e → latest_error (inr e) ≡ none → first (in_filter i) w.dryruns ≡ none) _ _ w
      (λ e' h k n.
        let failed : e ≡ result_get_failed = same_error (err e') refl k ∙ query_error _ _ w h in
        let refused = subst (λ x. latest_error (inr x) ≡ none) failed n in cc)
      (λ h k n. cc) (λ o h k n. query_value _ _ w h ∙ not_found_there o e _ k)

module _ (sv : DryrunServices) where
  pub Reads-get_source : (id : String) → Reads (get_source sv id)
  unfolding get_source detail
  Reads-get_source id =
      Reads-bind _ _
        (Reads-wrap _ _ (
          Reads-bind _ _ (Reads-check _) (λ _.
            Reads-bind _ _ (Reads-wrap _ _ (Reads-detail sv.base _))
              (λ row. Reads-found sv.base row))))
        (λ source. Reads-bind _ _ (Reads-check _) (λ _. Reads-pure source))

  pub Reads-target : (source_id id : String) → Reads (Trigger.get_target sv source_id id)
  unfolding Trigger.get_target detail_target
  Reads-target source_id id =
      Reads-bind _ _
        (Reads-wrap _ _
          (Reads-bind _ _ (Reads-check _) (λ _. Reads-wrap _ _ (Reads-get_target sv.base _ _))))
        (λ t. Reads-bind _ _ (Reads-check _) (λ _. Reads-pure t))

  pub Reads-get_latest : (i : LatestInput) → Reads (get_latest i)
  unfolding get_latest
  Reads-get_latest i = Reads-bind _ _ (Reads-query _ _) (λ o. Reads-found_result o)

  module _ (source : DataSource) (id : String) where
    Reads-crawl_target : Reads (crawl_target sv source id)
    Reads-crawl_target = Reads-bind _ _ (Reads-check _) (λ _.
        Reads-bind _ _ (Reads-target _ _) (λ t.
          Reads-attempt _ _ (Reads-get_latest _)
            (λ x. Reads-bind _ _ (Reads-check _) (λ _. Reads-pure (some t)))))

    Reads-branch : (b : Bool) → Reads (if b then crawl_target sv source id else no_target sv id)
    Reads-branch true = Reads-crawl_target
    Reads-branch false = Reads-bind _ _ (Reads-check _) (λ _. Reads-pure none)

    pub Reads-target_for : Reads (target_for sv source id)
    unfolding target_for
    Reads-target_for = Reads-branch (is_crawl source.source_category)
