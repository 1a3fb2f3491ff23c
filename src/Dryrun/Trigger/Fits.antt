-- ===== src/Dryrun/Trigger/Fits.antt =====
-- What the target that Trigger settles on fits.
use ingest_srv.Shared.{
  String, Bool, true, false, Option, none, some, ◌≡◌, ◌≢◌, is_blank, trim_space, Bool-cases, eq_iff,
  refl, ◌∙◌, ap, ◌⊎◌, inl, inr, first, ◌==◌, ◌||◌, not, if◌then◌else◌, sym, subst, arith,
}
use ingest_srv.Model.{
  DryrunResult, CrawlTarget, DataSource, is_crawl, is_running, DryrunStatus, SourceCategory, crawl,
  passive,
}
use ingest_srv.Runtime.{World, Outcome, ok, pure, check, ◌>>=◌}
use ingest_srv.Runtime.Steps.{SameTables, SameTables-trans, Post-read, Post-check, Post-attempt}
use ingest_srv.Dryrun.Types.{DryrunErr, LatestInput, DryrunServices}
use ingest_srv.Dryrun.Results.{in_filter}
use ingest_srv.Dryrun.Store.{ResultErr}
use ingest_srv.Dryrun.Trigger.{crawl_target, no_target, latest_error, require}
use ingest_srv.Repository.Targets as Targets
use ingest_srv.Dryrun.Trigger.Finds.{target_there}
use ingest_srv.Dryrun.Trigger.Latest.{latest_found, latest_missing, Reads-target, Reads-get_latest}

-- The latest dry run of a target, if there is one, is not RUNNING, or has no identifier.
abbrev pub NotRunning : LatestInput → World → Type 0
NotRunning latest w =
    (d : DryrunResult)
    → first (in_filter latest) w.dryruns ≡ some d
    → (d.id ≡ "") ⊎ (d.status ≢ DryrunStatus.running)

-- What a data source may be tested with: a crawl with the target of this identifier in the table, if
-- it has no dry run under way, and another data source without a target.
pub data Fits (w : World) (source : DataSource) (target_id : String)
    : Option CrawlTarget → Type 0 where
  crawls :
      (t : CrawlTarget)
      → source.source_category ≡ crawl
      → Targets.find (trim_space source.id) (trim_space target_id) w.targets ≡ some t
      → NotRunning (record { source_id = source.id; target_id = t.id }) w
      → Fits w source target_id (some t)
  receives :
      source.source_category ≡ passive → is_blank target_id ≡ true → Fits w source target_id none

same_value : {a d : DryrunResult} → some a ≡ some d → a ≡ d
same_value h = cc

same_target :
    (z : Outcome DryrunErr (Option CrawlTarget)) {t o : Option CrawlTarget}
    → z ≡ ok t
    → z ≡ ok o
    → t ≡ o
same_target z p q = cc

pub guard_passed : (e : DryrunErr) (b : Bool) → require b e ≡ none → b ≡ true
guard_passed e true h = refl
guard_passed e false h = cc

a_crawl : (c : SourceCategory) → is_crawl c ≡ true → c ≡ crawl
a_crawl crawl h = refl
a_crawl passive h = cc

no_crawl : (c : SourceCategory) → is_crawl c ≡ false → c ≡ passive
no_crawl passive h = refl
no_crawl crawl h = cc

running_only : (status : DryrunStatus) → is_running status ≡ false → status ≢ DryrunStatus.running
running_only status h is = let same = ap is_running is in cc

not_running :
    (id : String) (status : DryrunStatus)
    → (id == "" || not (is_running status)) ≡ true
    → (id ≡ "") ⊎ (status ≢ DryrunStatus.running)
not_running id status h = elim (Bool-cases (id == "")) [
  | inl blank ↦ inl ((eq_iff id "").0 blank)
  | inr named ↦ inr (running_only status (ground (arith, h, named)))
]

module _ (sv : DryrunServices) where
  module _ (source : DataSource) (id : String) where
    abbrev latest_of : CrawlTarget → LatestInput
    latest_of t = record { source_id = source.id; target_id = t.id }

    found_idle :
        (w v : World) (t : CrawlTarget) (a : DryrunResult)
        → SameTables w v
        → first (in_filter (latest_of t)) v.dryruns ≡ some a
        → latest_error (inl a) ≡ none
        → NotRunning (latest_of t) w
    found_idle w v t a same here said d is =
        subst (λ (x : DryrunResult). (x.id ≡ "") ⊎ (x.status ≢ DryrunStatus.running))
          (same_value (sym here ∙ ap (first (in_filter (latest_of t))) same.dryruns ∙ is))
          (not_running a.id a.status (guard_passed DryrunErr.dryrun_already_running _ said))

    missing_idle :
        (w v : World) (t : CrawlTarget)
        → SameTables w v
        → first (in_filter (latest_of t)) v.dryruns ≡ none
        → NotRunning (latest_of t) w
    missing_idle w v t same gone d is =
        let both = sym gone ∙ ap (first (in_filter (latest_of t))) same.dryruns ∙ is in cc

    abbrev Stored : World → CrawlTarget → Type 0
    Stored w t = Targets.find (trim_space source.id) (trim_space id) w.targets ≡ some t

    settles :
        (w u : World) (t : CrawlTarget) (x : DryrunResult ⊎ ResultErr) (o : Option CrawlTarget)
        → is_crawl source.source_category ≡ true
        → Stored w t
        → (latest_error x ≡ none → NotRunning (latest_of t) w)
        → ((check (latest_error x) >>= λ _. pure (some t)) u).0 ≡ ok o
        → Fits w source id o
    unfolding pure
    settles w u t x o crawling stored idle_when =
        Post-check (λ r. r.0 ≡ ok o → Fits w source id o) _ _ u (λ e h k. cc)
          (λ said k.
            subst (Fits w source id) (same_target (ok (some t)) refl k)
              (crawls t (a_crawl source.source_category crawling) stored (idle_when said)))

    pub target_fits :
        (b : Bool) (w v : World) (o : Option CrawlTarget)
        → is_crawl source.source_category ≡ b
        → SameTables w v
        → ((if b then crawl_target sv source id else no_target sv id) v).0 ≡ ok o
        → Fits w source id o
    unfolding pure
    target_fits true w v o crawling same =
        Post-check (λ r. r.0 ≡ ok o → Fits w source id o) _ _ v (λ e h k. cc)
          (λ _.
            Post-read (λ r. r.0 ≡ ok o → Fits w source id o) _ v (Reads-target sv _ _)
              (λ e u s k. cc)
              (λ t u s is.
                let stored : Stored w t =
                  ap (Targets.find (trim_space source.id) (trim_space id)) (sym same.targets)
                  ∙ target_there sv source.id id v t is in
                Post-attempt (λ r. r.0 ≡ ok o → Fits w source id o) _ _ u
                  ((Reads-get_latest sv (latest_of t)).calm u)
                  (λ a got. settles w _ t (inl a) o crawling stored (
                    found_idle w u t a (SameTables-trans same s)
                      (latest_found (latest_of t) u a got)))
                  (λ e got. settles w _ t (inr e) o crawling stored (λ said.
                    missing_idle w u t (SameTables-trans same s)
                      (latest_missing (latest_of t) u e got said)))))
    target_fits false w v o receive same =
        Post-check (λ r. r.0 ≡ ok o → Fits w source id o) _ _ v (λ e h k. cc)
          (λ blank k. subst (Fits w source id) (same_target (ok none) refl k) (
            receives (no_crawl source.source_category receive)
              (guard_passed DryrunErr.target_forbidden _ blank)))
