-- ===== src/Dryrun/Store/Completes.antt =====
-- CompleteResult: what the tables hold when it has succeeded, and that a failure changes nothing.
use ingest_srv.Shared.{
  ℕ, String, Bool, false, Option, none, some, ◌≡◌, ◌==◌, ◌||◌, refl, sym, ap, ◌∙◌, inl, inr, arith,
  Bool-cases, update_where, is_some, not, first, if◌then◌else◌,
}
use ingest_srv.Model.{
  DataSource, CrawlTarget, DryrunResult, DryrunStatus, SourceStatus, is_status,
  is_terminal_dryrun_status,
}
use ingest_srv.Runtime.{
  World, Env, Outcome, ok, err, Exec, transaction, fail, pure, statement, query, spent, ◌>>=◌,
}
use ingest_srv.Runtime.Steps.{
  SameTables, SameTables-trans, Reads, Reads-pure, Reads-fail, Reads-query, Reads-reading,
  Reads-bind, Post-read, Post-bind, Post-statement, Post, query_value,
}
use ingest_srv.Runtime.Calm.{Calm, Calm-Reads, Calm-bind, Calm-statement}
use ingest_srv.Repository.Sources as Sources
use ingest_srv.Repository.Targets as Targets
use ingest_srv.Dryrun.Store.{
  ResultErr, result_update_failed, CompleteResultOptions, find_result, apply_result, save_result,
  status_after, sync_source, found_result, found_source, boundary, completion_time, activate_row,
  activate_if, complete_body, complete_result,
}

abbrev is_validating : SourceStatus → Bool
is_validating s = is_status SourceStatus.pending s || is_status SourceStatus.ready s

-- What a completion makes of the status of a data source.
abbrev pub followed : DryrunStatus → SourceStatus → SourceStatus
followed DryrunStatus.failed status = if is_validating status then SourceStatus.pending else status
followed _ status = if is_validating status then SourceStatus.ready else status

-- The row and the data source that a completion with the options leaves.
pub record Synced (opt : CompleteResultOptions) (old row : DryrunResult) (source saved : DataSource)
    : Type 0 where
  pub same_result : row.id ≡ old.id
  pub result_status : row.status ≡ opt.status
  pub same_source : saved.id ≡ source.id
  pub dryrun_status : saved.dryrun_status ≡ opt.status
  pub last_result : saved.dryrun_last_result_id ≡ old.id
  pub status : saved.status ≡ followed opt.status source.status

-- How CompleteResult ends.
pub data Completes (opt : CompleteResultOptions) (w : World)
    (r : Outcome ResultErr (DryrunResult × DataSource) × World) : Type 0 where
  kept :
      (e : ResultErr)
      → r.0 ≡ err e
      → r.1.dryruns ≡ w.dryruns
      → r.1.sources ≡ w.sources
      → r.1.targets ≡ w.targets
      → Completes opt w r
  completed :
      (old row : DryrunResult) (source saved : DataSource)
      → find_result opt.id w ≡ some old
      → Sources.find old.source_id w.sources ≡ some source
      → is_some source.deleted_at ≡ false
      → r.0 ≡ ok (row, saved)
      → r.1.dryruns ≡ update_where (λ d. d.id == old.id) (λ d. row) w.dryruns
      → r.1.sources ≡ Sources.replace saved w.sources
      → Synced opt old row source saved
      → Completes opt w r

-- The body of the transaction, before a rollback.
data Body (opt : CompleteResultOptions) (w : World)
    (r : Outcome ResultErr (DryrunResult × DataSource) × World) : Type 0 where
  fails : (e : ResultErr) → r.0 ≡ err e → Body opt w r
  ends :
      (old row : DryrunResult) (source saved : DataSource)
      → find_result opt.id w ≡ some old
      → Sources.find old.source_id w.sources ≡ some source
      → is_some source.deleted_at ≡ false
      → r.0 ≡ ok (row, saved)
      → r.1.dryruns ≡ update_where (λ d. d.id == old.id) (λ d. row) w.dryruns
      → r.1.sources ≡ Sources.replace saved w.sources
      → Synced opt old row source saved
      → Body opt w r

rolled :
    (opt : CompleteResultOptions) (w : World) (m : Exec ResultErr (DryrunResult × DataSource))
    → Body opt w (m w)
    → Completes opt w (transaction m w)
unfolding transaction
rolled opt w m (fails e is) = rw is (kept e refl refl refl refl)
rolled opt w m (ends old row source saved result there undeleted is rows sources synced) =
    rw is (completed old row source saved result there undeleted refl rows sources synced)

follows : (d : DryrunStatus) (s : SourceStatus) → status_after d s ≡ followed d s
unfolding status_after
follows DryrunStatus.not_required s = ground arith
follows DryrunStatus.pending s = ground arith
follows DryrunStatus.running s = ground arith
follows DryrunStatus.success s = ground arith
follows DryrunStatus.warning s = ground arith
follows DryrunStatus.failed s = ground arith

save_result-rows :
    (row : DryrunResult) (w : World) (r : Unit {0} × World)
    → save_result row w ≡ some r
    → (r.1.dryruns ≡ update_where (λ d. d.id == row.id) (λ d. row) w.dryruns)
      × (r.1.sources ≡ w.sources)
unfolding save_result
save_result-rows row w r h = ground arith

save_source-rows :
    (env : Env) (s : DataSource) (w : World) (r : DataSource × World)
    → Sources.save env (some s) w ≡ some r
    → (r.0 ≡ record s { updated_at = env.clock w.readings })
      × (r.1.sources ≡ Sources.replace r.0 w.sources)
      × (r.1.dryruns ≡ w.dryruns)
unfolding Sources.save
save_source-rows env s w r h = ground arith

-- The tables that the activation of the target leaves alone.
abbrev Apart : World → World → Type 0
Apart u v = (v.dryruns ≡ u.dryruns) × (v.sources ≡ u.sources)

save_target-Apart :
    (env : Env) (t : CrawlTarget) (u w : World) (r : CrawlTarget × World)
    → Targets.save env t w ≡ some r
    → Apart u w
    → Apart u r.1
unfolding Targets.save
save_target-Apart env t u w r h q = ground arith

pub Reads-completion_time :
    (env : Env) (at : Option ℕ) (status : DryrunStatus) → Reads (completion_time env at status)
unfolding completion_time
Reads-completion_time env (some at) status = Reads-pure _
Reads-completion_time env none status = elim (Bool-cases (not (is_terminal_dryrun_status status))) [
  | inl t ↦ rw t (Reads-pure _)
  | inr t ↦ rw t (Reads-bind _ _ (Reads-reading env) (λ now. Reads-pure _))
]

pub Reads-found_result : (o : Option DryrunResult) → Reads (found_result o)
Reads-found_result none = Reads-fail _
Reads-found_result (some d) = Reads-pure d

pub Reads-found_source : (o : Option DataSource) → Reads (found_source o)
Reads-found_source none = Reads-fail _
Reads-found_source (some s) = elim (Bool-cases (is_some s.deleted_at)) [
  | inl gone ↦ rw gone (Reads-fail _)
  | inr there ↦ rw there (Reads-pure s)
]

pub result_there :
    (o : Option DryrunResult) (d : DryrunResult) (w : World)
    → (found_result o w).0 ≡ ok d
    → o ≡ some d
unfolding pure fail
result_there none d w h = cc
result_there (some x) d w h = cc

source_there :
    (o : Option DataSource) (s : DataSource) (w : World)
    → (found_source o w).0 ≡ ok s
    → (o ≡ some s) × (is_some s.deleted_at ≡ false)
unfolding pure fail
source_there none s w h = cc
source_there (some x) s w h = elim (Bool-cases (is_some x.deleted_at)) [
  | inl gone ↦ ground (arith, h, gone)
  | inr there ↦ ground (arith, h, there)
]

Apart-trans : (u v w : World) → Apart u v → Apart v w → Apart u w
Apart-trans u v w p q = (q.0 ∙ p.0, q.1 ∙ p.1)

of_same : {w v : World} → SameTables w v → Apart w v
of_same s = (s.dryruns, s.sources)

module _ (env : Env) where
  activate_row-Apart : (o : Option CrawlTarget) (w : World) → Apart w (activate_row env o w).1
  unfolding pure
  activate_row-Apart none w = (refl, refl)
  activate_row-Apart (some t) w = elim (Bool-cases t.is_active) [
    | inl on ↦ rw on (refl, refl)
    | inr off ↦ rw off (
        Post-statement (λ r. Apart w r.1) _ _ _ w (refl, refl)
          (λ r saved. save_target-Apart env _ w _ r saved (refl, refl)))
  ]

  Calm-activate_row : (o : Option CrawlTarget) → Calm (activate_row env o)
  Calm-activate_row none = Calm-Reads (Reads-pure _)
  Calm-activate_row (some t) = elim (Bool-cases t.is_active) [
    | inl on ↦ rw on (Calm-Reads (Reads-pure _))
    | inr off ↦ rw off (Calm-bind _ _ (Calm-statement _ _) (λ _. Calm-Reads (Reads-pure _)))
  ]

  activate_if-Apart : (b : Bool) (id : String) (w : World) → Apart w (activate_if env b id w).1
  unfolding pure
  activate_if-Apart b id w = elim (Bool-cases (not b || id == "")) [
    | inl skip ↦ rw skip (refl, refl)
    | inr go ↦ rw go (
        Post-read (λ r. Apart w r.1) _ w (Reads-query _ _) (λ e v same. of_same same)
          (λ found v same _.
            Apart-trans w v (activate_row env found v).1 (of_same same)
              (activate_row-Apart found v)))
  ]

  Calm-activate_if : (b : Bool) (id : String) → Calm (activate_if env b id)
  Calm-activate_if b id = elim (Bool-cases (not b || id == "")) [
    | inl skip ↦ rw skip (Calm-Reads (Reads-pure _))
    | inr go ↦
        rw go (Calm-bind _ _ (Calm-Reads (Reads-query _ _)) (λ found. Calm-activate_row found))
  ]

  -- What is left to do after the two rows are written.
  finished :
      (opt : CompleteResultOptions) (w v : World) (old row : DryrunResult)
      (source saved : DataSource)
      → find_result opt.id w ≡ some old
      → Sources.find old.source_id w.sources ≡ some source
      → is_some source.deleted_at ≡ false
      → v.dryruns ≡ update_where (λ d. d.id == old.id) (λ d. row) w.dryruns
      → v.sources ≡ Sources.replace saved w.sources
      → Synced opt old row source saved
      → Post (Body opt w) (
          (activate_if env opt.activate_target old.target_id >>= λ _.
          boundary >>= λ _. pure (row, saved))
            v)
  unfolding pure
  finished opt w v old row source saved result there undeleted rows sources synced =
      let apart = activate_if-Apart opt.activate_target old.target_id v in
      Post-bind (Body opt w) (activate_if env opt.activate_target old.target_id) _ v
        (λ e _. fails e refl)
        (λ p. absurd ((Calm-activate_if opt.activate_target old.target_id).calm v p))
        (λ _ _.
          Post-read (Body opt w) _ _ (Reads-query result_update_failed _) (λ e u same. fails e refl)
            (λ _ u same _.
              ends old row source saved result there undeleted refl (same.dryruns ∙ apart.0 ∙ rows)
                (same.sources ∙ apart.1 ∙ sources) synced))

  sync_source-Synced :
      (opt : CompleteResultOptions) (at : Option ℕ) (old : DryrunResult) (source saved : DataSource)
      (now : ℕ)
      → saved ≡ record (sync_source opt old.id source) { updated_at = now }
      → Synced opt old (apply_result opt at old) source saved
  unfolding apply_result sync_source
  sync_source-Synced opt at old source saved now is = record {
    same_result = refl;
    result_status = refl;
    same_source = ap (λ (s : DataSource). s.id) is;
    dryrun_status = ap (λ (s : DataSource). s.dryrun_status) is;
    last_result = ap (λ (s : DataSource). s.dryrun_last_result_id) is;
    status = ap (λ (s : DataSource). s.status) is ∙ follows opt.status source.status;
  }

  -- From the write of the result on.
  recorded :
      (opt : CompleteResultOptions) (w v : World) (old : DryrunResult) (at : Option ℕ)
      → find_result opt.id w ≡ some old
      → Apart w v
      → Post (Body opt w) (
          (statement result_update_failed (save_result (apply_result opt at old)) >>= λ _.
          query result_update_failed (λ u. Sources.find old.source_id u.sources) >>= λ owner.
          found_source owner >>= λ source.
          statement result_update_failed (Sources.save env (some (sync_source opt old.id source)))
          >>= λ saved. activate_if env opt.activate_target old.target_id >>= λ _.
              boundary >>= λ _. pure (apply_result opt at old, saved))
            v)
  unfolding apply_result
  recorded opt w v old at result apart =
      Post-statement (Body opt w) _ _ _ v (fails result_update_failed refl) (λ r1 took1.
        let rows = save_result-rows (apply_result opt at old) (spent v) r1 took1 in
        Post-read (Body opt w) _ r1.1 (Reads-query result_update_failed _)
          (λ e u same. fails e refl)
          (λ owner u1 same1 is.
            Post-read (Body opt w) _ u1 (Reads-found_source owner) (λ e u same. fails e refl)
              (λ source u2 same2 got.
                let there = source_there owner source u1 got in
                Post-statement (Body opt w) _ _ _ u2 (fails result_update_failed refl) (λ r2 took2.
                  let saved =
                    save_source-rows env (sync_source opt old.id source) (spent u2) r2 took2 in
                  finished opt w r2.1 old (apply_result opt at old) source r2.0 result
                    (ap (Sources.find old.source_id) (sym (rows.1 ∙ apart.1))
                      ∙ query_value result_update_failed _ r1.1 is
                      ∙ there.0)
                    there.1
                    (saved.2
                      ∙ same2.dryruns
                      ∙ same1.dryruns
                      ∙ rows.0
                      ∙ ap (update_where (λ d. d.id == old.id) (λ d. apply_result opt at old))
                          apart.0)
                    (saved.1
                      ∙ ap (Sources.replace r2.0)
                          (same2.sources ∙ same1.sources ∙ rows.1 ∙ apart.1))
                    (sync_source-Synced opt at old source r2.0 _ saved.0)))))

  complete_body-Body :
      (opt : CompleteResultOptions) (w : World) → Body opt w (complete_body env opt w)
  unfolding complete_body
  complete_body-Body opt w =
      Post-read (Body opt w) _ w (Reads-query result_update_failed _) (λ e u same. fails e refl)
        (λ _ v1 same1 _.
          Post-read (Body opt w) _ v1 (Reads-query result_update_failed _)
            (λ e u same. fails e refl)
            (λ found v2 same2 is.
              Post-read (Body opt w) _ v2 (Reads-found_result found) (λ e u same. fails e refl)
                (λ old v3 same3 got.
                  Post-read (Body opt w) _ v3
                    (Reads-completion_time env opt.completed_at opt.status)
                    (λ e u same. fails e refl)
                    (λ at v4 same4 _.
                      recorded opt w v4 old at
                        (ap (first (λ d. d.id == opt.id)) (sym same1.dryruns)
                          ∙ query_value result_update_failed _ v1 is
                          ∙ result_there found old v2 got)
                        (of_same (
                          SameTables-trans same1
                            (SameTables-trans same2 (SameTables-trans same3 same4))))))))

  -- CompleteResult never panics. It fails and changes no dry run, data source or target; or it
  -- replaces the rows of the dry run and of its undeleted data source: both have the status asked
  -- for, the data source names the dry run as its last, and, if it was PENDING or READY, is PENDING
  -- where the dry run failed and READY where not.
  pub complete_result-Completes :
      (opt : CompleteResultOptions) (w : World) → Completes opt w (complete_result env opt w)
  unfolding complete_result
  complete_result-Completes opt w = rolled opt w (complete_body env opt) (complete_body-Body opt w)
