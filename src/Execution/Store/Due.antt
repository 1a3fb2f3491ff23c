-- ===== src/Execution/Store/Due.antt =====
-- due_targets.go: which targets are due, the claim of one, and its release.
pub mod Claims
use Prim.Native.Nat.{Ordering}
use Prim.Native.String.{compare}
use ingest_srv.Shared.{
  ℕ, suc, ◌+◌, String, Bool, true, false, Option, none, some, List, [], ◌∷◌, ◌==◌, ◌&&◌, any, not,
  ltb, leb, nat_eq, is_some, is_positive, count, select, trim_space, update_where, ℤ, int_le,
  int_eq, take, sort_by, if◌then◌else◌,
}
use ingest_srv.Model.{DataSource, CrawlTarget, SourceStatus, SourceCategory, is_status, is_crawl}
use ingest_srv.Runtime.{World, Env, Exec, ◌>>=◌, ◌>>◌, pure, fail, statement, query, reading}
use ingest_srv.Repository.Sources as Sources
use ingest_srv.Repository.Targets as Targets
use ingest_srv.Execution.Options.{
  StoreErr, list_due_failed, claim_failed, DispatchContext, ClaimOptions, ReleaseOptions,
}
use ingest_srv.Execution.Store.{find_target, boundary}
use ingest_srv.Execution.Store.Cancel.{unscheduled}

-- next_crawl_at IS NULL OR next_crawl_at <= now
abbrev pub is_due : ℕ → Option ℕ → Bool
is_due now none = true
is_due now (some at) = leb at now

abbrev pub crawls : DataSource → Bool
crawls s = is_status SourceStatus.active s.status && is_crawl s.source_category

abbrev joined : CrawlTarget → Option DataSource → List DispatchContext → List DispatchContext
joined t none rest = rest
joined t (some s) rest = record { source = s; target = t } ∷ rest

-- crawl_targets ct INNER JOIN data_sources ds ON ds.id = ct.data_source_id
unfoldable pub join_sources : List DataSource → List CrawlTarget → List DispatchContext
join_sources sources [] = []
join_sources sources (t ∷ ts) =
    joined t (Sources.find t.data_source_id sources) (join_sources sources ts)

abbrev pub due_row : ℕ → DispatchContext → Bool
due_row now c = crawls c.source && c.target.is_active && is_due now c.target.next_crawl_at

-- next_crawl_at ASC NULLS FIRST
abbrev time_before : Option ℕ → Option ℕ → Bool
time_before none none = false
time_before none (some b) = true
time_before (some a) none = false
time_before (some a) (some b) = ltb a b

abbrev time_same : Option ℕ → Option ℕ → Bool
time_same none none = true
time_same (some a) (some b) = nat_eq a b
time_same _ _ = false

-- ORDER BY next_crawl_at ASC NULLS FIRST, priority DESC, created_at ASC
unfoldable pub by_schedule : DispatchContext → DispatchContext → Bool
by_schedule a b =
    if time_same a.target.next_crawl_at b.target.next_crawl_at
    then if int_eq a.target.priority b.target.priority
      then leb a.target.created_at b.target.created_at
      else int_le b.target.priority a.target.priority
    else time_before a.target.next_crawl_at b.target.next_crawl_at

pub record Ranked : Type 0 where
  pub rank : ℕ
  pub row : DispatchContext

abbrev pub in_project : String → DispatchContext → Bool
in_project id c = c.source.project_id == id

-- ROW_NUMBER() OVER (PARTITION BY project_id …): `seen` are the rows that come before.
unfoldable pub number_rows : List DispatchContext → List DispatchContext → List Ranked
number_rows seen [] = []
number_rows seen (c ∷ cs) =
    record { rank = suc (count (in_project c.source.project_id) seen); row = c }
    ∷ number_rows (c ∷ seen) cs

abbrev text_le : Ordering → Bool
text_le Ordering.gt = false
text_le Ordering.lt = true
text_le Ordering.eq = true

-- ORDER BY rn ASC, project_id ASC
unfoldable pub by_rank : Ranked → Ranked → Bool
by_rank a b =
    if nat_eq a.rank b.rank
    then text_le (compare a.row.source.project_id b.row.source.project_id)
    else ltb a.rank b.rank

abbrev ids_of : List Ranked → List String
ids_of [] = []
ids_of (r ∷ rs) = r.row.target.id ∷ ids_of rs

-- The ranking of all due targets, before the limit.
unfoldable pub ranking : ℕ → World → List Ranked
unfolding join_sources number_rows by_schedule by_rank sort_by
ranking now w =
    sort_by by_rank (
      number_rows []
        (sort_by by_schedule (select (due_row now) (join_sources w.sources w.targets))))

unfoldable pub rank_due_target_ids : ℕ → ℕ → Exec StoreErr (List String)
unfolding ranking
rank_due_target_ids now limit = do
  ids ← query list_due_failed (λ w. ids_of (take limit (ranking now w)))
  boundary list_due_failed
  pure ids

abbrev with_source : CrawlTarget → Option DataSource → Option DispatchContext
with_source t none = none
with_source t (some s) = some (record { source = s; target = t })

abbrev by_id : List DataSource → Option CrawlTarget → Option DispatchContext
by_id sources none = none
by_id sources (some t) = with_source t (Sources.find t.data_source_id sources)

abbrev present {ℓ} : {A : Type ℓ} → Option A → List A → List A
present none xs = xs
present (some x) xs = x ∷ xs

-- The rows in the order of the identifiers; a missing one is left out.
unfoldable pub in_order : List DataSource → List CrawlTarget → List String → List DispatchContext
in_order sources targets [] = []
in_order sources targets (id ∷ ids) =
    present (by_id sources (find_target id targets)) (in_order sources targets ids)

abbrev pub load_due : List String → Exec StoreErr (List DispatchContext)
load_due [] = pure []
load_due (id ∷ ids) = do
  targets ← query list_due_failed (λ w. select (λ t. any (λ i. i == t.id) (id ∷ ids)) w.targets)
  sources ← query list_due_failed (λ w. w.sources)
  pure (in_order sources targets (id ∷ ids))

-- A limit of zero stands for every limit that is not positive.
unfoldable pub list_due_targets : ℕ → ℕ → Exec StoreErr (List DispatchContext)
unfolding in_order
list_due_targets now limit = do
  ids ← rank_due_target_ids now (if nat_eq limit 0 then 1 else limit)
  load_due ids

-- The conditions of the UPDATE.
unfoldable pub claimable : ClaimOptions → List DataSource → CrawlTarget → Bool
claimable opt sources t =
    Targets.owned opt.source_id opt.target_id t
    && t.is_active
    && is_due opt.claimed_at t.next_crawl_at
    && any (λ s. s.id == t.data_source_id && crawls s) sources

-- The trigger sets updated_at.
unfoldable pub claimed : ClaimOptions → ℕ → CrawlTarget → CrawlTarget
claimed opt now t = record t {
  next_crawl_at = some opt.next_crawl_at;
  last_crawl_at = some opt.claimed_at;
  updated_at = now;
}

module _ (env : Env) where
  -- One statement that tests and writes; it returns the number of rows.
  unfoldable pub claim_rows : ClaimOptions → World → Option (ℕ × World)
  claim_rows opt w = some (
    count (claimable opt w.sources) w.targets,
    record w {
      targets =
          update_where (claimable opt w.sources) (claimed opt (env.clock w.readings)) w.targets;
      readings = suc w.readings;
    },
  )

  unfoldable pub claim_target : ClaimOptions → Exec StoreErr Bool
  claim_target opt = do
    affected ← statement claim_failed (claim_rows opt)
    boundary claim_failed
    pure (ltb 0 affected)

  abbrev pub release_row : Option CrawlTarget → Exec StoreErr (Unit {0})
  release_row none = pure tt
  release_row (some t) = do statement claim_failed (Targets.save env (unscheduled t)); pure tt

  unfoldable pub release_claim_target : ReleaseOptions → Exec StoreErr (Unit {0})
  release_claim_target opt =
      if trim_space opt.target_id == ""
      then pure tt
      else if trim_space opt.source_id == ""
      then pure tt
      else do
        row ←
            query claim_failed
              (λ w. Targets.find (trim_space opt.source_id) (trim_space opt.target_id) w.targets)
        release_row row
