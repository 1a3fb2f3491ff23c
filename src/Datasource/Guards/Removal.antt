-- ===== src/Datasource/Guards/Removal.antt =====
-- ensureCanRemoveActiveTarget: an ACTIVE data source keeps an active target.
use ingest_srv.Shared.{
  ℕ, ◌≤◌, String, true, false, Option, none, some, ◌≡◌, ◌∙◌, refl, sym, subst, ap, arith, inl, inr,
  count, leb, Bool-cases, trim_space, if◌then◌else◌,
}
use ingest_srv.Model.{DataSource, SourceStatus, is_status}
use ingest_srv.Runtime.{World, Env, Outcome, ok, check}
use ingest_srv.Runtime.Steps.{Reads-wrap, Post-read, query_value, wrap_value}
use ingest_srv.Repository.Sources.{find, live}
use ingest_srv.Repository.Targets.{counted, count_active_targets}
use ingest_srv.Datasource.Types.{Err}
use ingest_srv.Datasource.Effects.{Post-load}
use ingest_srv.Datasource.Guards.Reads.{Reads-count}
use ingest_srv.Datasource.Guards.{ensure_can_remove_active_target}

-- The data source is there, and if it is ACTIVE then it has two active targets that are shown.
abbrev pub CanSpare : Env → String → World → Type 0
CanSpare env id w =
    (s : DataSource) × (live (find id w.sources) ≡ some s)
    × (s.status ≡ SourceStatus.active → 2 ≤ count (counted env s.id) w.targets)

check_ok : (o : Option Err) (w : World) → (check o w).0 ≡ ok tt → o ≡ none
unfolding check
check_ok none w h = refl
check_ok (some e) w h = cc

module _ (env : Env) (id : String) (not_allowed : Err) (w : World) where
  abbrev Spares : Outcome Err (Unit {0}) × World → Type 0
  Spares r = r.0 ≡ ok tt → CanSpare env (trim_space id) w

  count_value :
      (source_id : String) (v : World) {n : ℕ}
      → (count_active_targets env source_id v).0 ≡ ok n
      → count (counted env source_id) v.targets ≡ n
  unfolding count_active_targets
  count_value source_id v h = query_value _ _ v h

  enough : (n : ℕ) (e : Err) → (if leb n 1 then some e else none) ≡ none → 2 ≤ n
  enough n e h = ground arith

  idle : (s : SourceStatus) → is_status s SourceStatus.active ≡ false → s ≡ SourceStatus.active → ⊥
  idle s h p = ground arith

  -- If ensureCanRemoveActiveTarget lets an active target go, then its data source is there and not
  -- deleted, and if that is ACTIVE it has at least two active targets that are not flushed.
  pub ensure_can_remove-CanSpare :
      (ensure_can_remove_active_target env id true not_allowed w).0 ≡ ok tt
      → CanSpare env (trim_space id) w
  unfolding ensure_can_remove_active_target
  ensure_can_remove-CanSpare =
      Post-load env Spares _ (trim_space id) _ w (λ e v _ h. cc)
        (λ s v same row. elim (Bool-cases (is_status s.status SourceStatus.active)) [
          | inl active ↦ rw active (
              Post-read Spares _ v (Reads-wrap _ _ (Reads-count env s.id)) (λ e u _ h. cc)
                (λ n u still is. λ h.
                  let several = enough n not_allowed (check_ok _ u h) in
                  let counts =
                    ap (count (counted env s.id)) (sym same.targets)
                    ∙ count_value s.id v (wrap_value _ _ v is) in
                  (s, row, λ p. subst (λ m. 2 ≤ m) (sym counts) several)))
          | inr other ↦ rw other (λ h. (s, row, λ p. absurd (idle s.status other p)))
        ])
