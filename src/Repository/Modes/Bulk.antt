-- ===== src/Repository/Modes/Bulk.antt =====
-- BulkApplyProjectCrawlMode: one transaction that changes the crawl mode of a project and audits it.
use ingest_srv.Shared.{
  ℕ, suc, ◌+◌, String, Bool, true, false, Option, none, some, List, [], ◌∷◌, ◌≡◌, ◌≤◌, ◌||◌, refl,
  ap, ◌∙◌, sym, subst, ◌==◌, arith, inl, inr, count, select, length, nat_eq, Bool-cases, trim_space,
}
use ingest_srv.Model.{
  DataSource, CrawlMode, CrawlModeChange, TriggerType, is_mode, parse_crawl_mode,
}
use ingest_srv.Runtime.{World, Env, Outcome, ok, err, Exec, ◌>>=◌, pure, fail, transaction, spent}
use ingest_srv.Runtime.Steps.{
  SameTables, SameTables-trans, Reads, Reads-query, Reads-reading, Post-read, Post-statement,
  query_value,
}
use ingest_srv.Repository.Options.{
  RepoErr, failed_to_update, crawl_mode_change_failed_to_insert, BulkModeOptions,
}
use ingest_srv.Repository.Sources.{move_all}
use ingest_srv.Repository.Sources.Lifecycle.{count-move_all}
use ingest_srv.Repository.Modes.{
  BulkModeOutput, Changed, append_changes, insert_changes, with_changes, is_eligible, already,
  to_change, set_mode, returning, build_changes, update_modes, insert_built, draw, boundary,
  audit_changes, change_modes, all_done, counts, bulk_body, bulk_apply_project_crawl_mode,
}

append_changes-length :
    (cs : List CrawlModeChange) (sources : List DataSource) (table : List CrawlModeChange)
    {table' : List CrawlModeChange}
    → append_changes cs sources table ≡ some table'
    → length table' ≡ length cs + length table
unfolding append_changes
append_changes-length [] sources table {table'} h = ground arith
append_changes-length (c ∷ cs) sources table {table'} h =
    ground (arith, append_changes-length cs sources (c ∷ table) {table' = table'})

with_changes-some :
    (w : World) (o : Option (List CrawlModeChange)) {r : Unit {0} × World}
    → with_changes w o ≡ some r
    → (o ≡ some r.1.changes) × (r.1.sources ≡ w.sources)
with_changes-some w none h = cc
with_changes-some w (some table) h = (ground arith, ground arith)

count-none : (rows : List DataSource) → count (λ s. false) rows ≡ 0
count-none [] = refl
count-none (s ∷ rows) = omega (arith, count-none rows)

is_mode_refl : (m : CrawlMode) → is_mode m m ≡ true
is_mode_refl m = ground arith

module _ (env : Env) (opt : BulkModeOptions) (project_id : String) where
  -- The rows that a call is to change; none, if the mode is not one of the enumeration.
  abbrev pub changes_to : Option CrawlMode → DataSource → Bool
  changes_to none s = false
  changes_to (some mode) s = to_change env project_id mode s

  length-build_changes :
      (mode : CrawlMode) (trigger : TriggerType) (now : ℕ) (cs : List Changed) (drawn : ℕ)
      → length (build_changes env opt project_id mode trigger now cs drawn) ≡ length cs
  unfolding build_changes
  length-build_changes mode trigger now [] drawn = refl
  length-build_changes mode trigger now (c ∷ cs) drawn =
      ap suc (length-build_changes mode trigger now cs (suc drawn))

  length-returning :
      (mode : CrawlMode) (rows : List DataSource)
      → length (returning (select (to_change env project_id mode) rows))
        ≡ count (to_change env project_id mode) rows
  unfolding returning to_change
  length-returning mode [] = refl
  length-returning mode (s ∷ rows) = ground (arith, length-returning mode rows)

  set_mode-done :
      (mode : CrawlMode) (now : ℕ) (s : DataSource)
      → to_change env project_id mode (set_mode mode now s) ≡ false
  unfolding to_change set_mode
  set_mode-done mode now s = ground (arith, is_mode_refl mode)

  counts-split :
      (mode : CrawlMode) (rows : List DataSource)
      → count (to_change env project_id mode) rows + count (already project_id mode) rows
        ≤ count (is_eligible project_id) rows
  unfolding to_change already
  counts-split mode [] = omega arith
  counts-split mode (s ∷ rows) = ground (arith, counts-split mode rows)

  none_left :
      (mode : Option CrawlMode) (w : World)
      → let n = counts env project_id mode w in
        (nat_eq n.0 0 || nat_eq n.1 n.0) ≡ true → count (changes_to mode) w.sources ≡ 0
  none_left none w h = count-none w.sources
  none_left (some mode) w h = ground (arith, counts-split mode w.sources)

  -- How the call ends, from the rows and the audit as they were.
  pub data BulkEnds (mode : Option CrawlMode) (w : World)
      (r : Outcome RepoErr BulkModeOutput × World) : Type 0 where
    refused :
        (e : RepoErr)
        → r.0 ≡ err e
        → r.1.sources ≡ w.sources
        → r.1.changes ≡ w.changes
        → BulkEnds mode w r
    applied :
        (out : BulkModeOutput)
        → r.0 ≡ ok out
        → out.affected ≡ count (changes_to mode) w.sources
        → length r.1.changes ≡ out.affected + length w.changes
        → count (changes_to mode) r.1.sources ≡ 0
        → BulkEnds mode w r

  -- How the body of the transaction ends, before a rollback.
  data Body (mode : Option CrawlMode) (w : World) (r : Outcome RepoErr BulkModeOutput × World)
      : Type 0 where
    fails : (e : RepoErr) → r.0 ≡ err e → Body mode w r
    ends :
        (out : BulkModeOutput)
        → r.0 ≡ ok out
        → out.affected ≡ count (changes_to mode) w.sources
        → length r.1.changes ≡ out.affected + length w.changes
        → count (changes_to mode) r.1.sources ≡ 0
        → Body mode w r

  rolled :
      (mode : Option CrawlMode) (w : World) (m : Exec RepoErr BulkModeOutput)
      → Body mode w (m w)
      → BulkEnds mode w (transaction m w)
  unfolding transaction
  rolled mode w m (fails e answer) = rw answer (refused e refl refl refl)
  rolled mode w m (ends out answer n audit left) = rw answer (applied out refl n audit left)

  Reads-draw : (n : ℕ) → Reads (draw env n)
  Reads-draw n = record {
    at = λ w. record {
      sources = refl;
      targets = refl;
      dryruns = refl;
      changes = refl;
      hidden = refl;
      work = refl;
      sent = refl;
      published = refl;
      objects = refl;
    };
    calm = λ w p. cc;
  }

  -- Commit, and the answer.
  committed :
      (mode : Option CrawlMode) (w v : World) (out : BulkModeOutput)
      → out.affected ≡ count (changes_to mode) w.sources
      → length v.changes ≡ out.affected + length w.changes
      → count (changes_to mode) v.sources ≡ 0
      → Body mode w ((boundary env >>= λ _. pure out) v)
  unfolding pure
  committed mode w v out n audit left =
      Post-read (Body mode w) _ v (Reads-query failed_to_update _) (λ e u _. fails e refl)
        (λ _ u same _.
          ends out refl n (ap length same.changes ∙ audit)
            (ap (count (changes_to mode)) same.sources ∙ left))

  inserted :
      (mode : CrawlMode) (now : ℕ) (cs : List Changed) (trigger : Option TriggerType) (v : World)
      {r : Unit {0} × World}
      → insert_built env opt project_id mode now cs trigger v ≡ some r
      → (length r.1.changes ≡ length cs + length v.changes) × (r.1.sources ≡ v.sources)
  unfolding insert_changes
  inserted mode now cs none v h = cc
  inserted mode now cs (some trigger) v h =
      let (table, same) = with_changes-some v _ h in
      let built = length-build_changes mode trigger now cs v.drawn in
      (
        append_changes-length _ v.sources v.changes table ∙ ap (λ n. n + length v.changes) built,
        same,
      )

  -- From the rows that the UPDATE returned to the commit.
  audited :
      (mode : CrawlMode) (w v : World) (eligible already_target : ℕ) (cs : List Changed)
      → length cs ≡ count (changes_to (some mode)) w.sources
      → v.changes ≡ w.changes
      → count (changes_to (some mode)) v.sources ≡ 0
      → Body (some mode) w (audit_changes env opt project_id mode eligible already_target cs v)
  audited mode w v eligible already_target [] n same left =
      committed (some mode) w v _ n (omega (arith, ap length same)) left
  audited mode w v eligible already_target (c ∷ cs) n same left =
      Post-read (Body (some mode) w) _ v (Reads-reading env) (λ e u _. fails e refl)
        (λ now u kept _.
          Post-statement (Body (some mode) w) _ _ _ u
            (fails crawl_mode_change_failed_to_insert refl)
            (λ r accepted.
              let (grown, still) = inserted mode now (c ∷ cs) _ (spent u) accepted in
              Post-read (Body (some mode) w) _ r.1 (Reads-draw (length (c ∷ cs)))
                (λ e x _. fails e refl)
                (λ _ x after _.
                  committed (some mode) w x _ n
                    (ap length after.changes
                      ∙ grown
                      ∙ ap (λ t. length (c ∷ cs) + length t) (kept.changes ∙ same))
                    (ap (count (changes_to (some mode))) (after.sources ∙ still ∙ kept.sources)
                      ∙ left))))

  update_accepted :
      (mode : CrawlMode) (v : World) {r : List Changed × World}
      → update_modes env project_id mode v ≡ some r
      → let test = to_change env project_id mode in
        (r.0 ≡ returning (select test v.sources))
        × (r.1.changes ≡ v.changes)
        × (r.1.sources ≡ move_all test (set_mode mode (env.clock v.readings)) v.sources)
  unfolding update_modes
  update_accepted mode v {r} h = (ground arith, ground arith, ground arith)

  updated :
      (mode : CrawlMode) (v : World) {r : List Changed × World}
      → update_modes env project_id mode v ≡ some r
      → (length r.0 ≡ count (changes_to (some mode)) v.sources)
        × (r.1.changes ≡ v.changes)
        × (count (changes_to (some mode)) r.1.sources ≡ 0)
  updated mode v h =
      let (back, kept, rows) = update_accepted mode v h in
      let test = to_change env project_id mode in
      (
        ap length back ∙ length-returning mode v.sources,
        kept,
        ap (count test) rows ∙ count-move_all test _ (set_mode-done mode _) v.sources,
      )

  changed :
      (mode : Option CrawlMode) (w v : World) (eligible already_target : ℕ)
      → SameTables w v
      → Body mode w (change_modes env opt project_id mode eligible already_target v)
  changed none w v eligible already_target same =
      Post-statement (Body none w) _ _ _ v (fails failed_to_update refl) (λ r h. cc)
  changed (some mode) w v eligible already_target same =
      Post-statement (Body (some mode) w) _ _ _ v (fails failed_to_update refl) (λ r accepted.
        let (n, kept, left) = updated mode (spent v) accepted in
        audited mode w r.1 eligible already_target r.0
          (n ∙ ap (count (changes_to (some mode))) same.sources) (kept ∙ same.changes) left)

  all_done-Body :
      (mode : Option CrawlMode) (w v : World) (eligible already_target : ℕ) (enough : Bool)
      → SameTables w v
      → (enough ≡ true → count (changes_to mode) w.sources ≡ 0)
      → Body mode w (all_done env opt project_id mode eligible already_target enough v)
  all_done-Body mode w v eligible already_target true same none_to =
      committed mode w v _ (sym (none_to refl)) (omega (arith, ap length same.changes))
        (ap (count (changes_to mode)) same.sources ∙ none_to refl)
  all_done-Body mode w v eligible already_target false same none_to =
      changed mode w v eligible already_target same

  bulk_body-Body :
      (mode : Option CrawlMode) (w : World) → Body mode w (bulk_body env opt project_id mode w)
  bulk_body-Body mode w =
      Post-read (Body mode w) _ w (Reads-query failed_to_update _) (λ e v _. fails e refl)
        (λ _ v same _.
          Post-read (Body mode w) _ v (Reads-query failed_to_update _) (λ e u _. fails e refl)
            (λ n u still is.
              all_done-Body mode w u n.0 n.1 _ (SameTables-trans same still) (λ enough.
                ap (count (changes_to mode)) (sym same.sources)
                ∙ none_left mode v (
                    subst (λ m. (nat_eq m.0 0 || nat_eq m.1 m.0) ≡ true)
                      (sym (query_value failed_to_update _ v is)) enough))))

module _ (env : Env) (opt : BulkModeOptions) (w : World) where
  -- BulkApplyProjectCrawlMode never panics. It returns an error and leaves data sources and audit as
  -- they were, or it returns the number of data sources of the project that were eligible, had
  -- another mode and were not locked, has added as many audit rows, and leaves no such data source.
  pub bulk_apply-Ends :
      BulkEnds env opt
        (trim_space opt.project_id)
        (parse_crawl_mode (trim_space opt.target_mode))
        w
        (bulk_apply_project_crawl_mode env opt w)
  unfolding bulk_apply_project_crawl_mode fail
  bulk_apply-Ends =
      elim (Bool-cases (trim_space opt.project_id == "" || trim_space opt.target_mode == "")) [
        | inl blank ↦
            rw (bulk_apply_project_crawl_mode, blank) (refused failed_to_update refl refl refl)
        | inr given ↦
            rw (bulk_apply_project_crawl_mode, given)
              (rolled env opt _ _ w _ (
                bulk_body-Body env opt (trim_space opt.project_id)
                  (parse_crawl_mode (trim_space opt.target_mode)) w))
      ]
