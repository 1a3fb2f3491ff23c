-- ===== src/Repository/Sources/Lifecycle.antt =====
-- UpdateProjectDataSourcesLifecycle: which rows one call moves, and what is left to move.
use ingest_srv.Shared.{
  ℕ, suc, Bool, false, some, List, [], ◌∷◌, ◌≡◌, inl, inr, refl, ap, subst, arith, count, any, ◌+◌,
  none, true, ◌↔◌, ◌⊎◌, eq_iff, All, Bool-cases,
}
use ingest_srv.Model.{DataSource, SourceStatus, is_status}
use ingest_srv.Runtime.{World, Env, Outcome, ok, err, spent, reading, ◌>>=◌}
use ingest_srv.Runtime.Steps.{statement_cases}
use ingest_srv.Repository.Options.{RepoErr, failed_to_update, LifecycleOptions}
use ingest_srv.Repository.Sources.{
  in_lifecycle, to_lifecycle, move_all, move_sources, update_project_data_sources_lifecycle,
}

-- A write after which the test fails leaves no row that passes it.
pub count-move_all :
    (p : DataSource → Bool) (f : DataSource → DataSource)
    → ((s : DataSource) → p (f s) ≡ false)
    → (rows : List DataSource) → count p (move_all p f rows) ≡ 0
unfolding move_all
count-move_all p f left [] = refl
count-move_all p f left (s ∷ rows) = ground (arith, count-move_all p f left rows, left s)

-- A relation between the rows before and after a bulk write: those that satisfy P are moved, all
-- others stay, and `n` is how many were moved.
pub data Moving (P : DataSource → Type 0) (Edge : DataSource → DataSource → Type 0)
    : List DataSource → List DataSource → ℕ → Type 0 where
  done : Moving P Edge [] [] 0
  moves :
      {s t : DataSource} {rows rows' : List DataSource} {n : ℕ}
      → P s
      → Edge s t
      → Moving P Edge rows rows' n
      → Moving P Edge (s ∷ rows) (t ∷ rows') (1 + n)
  stays :
      {s : DataSource} {rows rows' : List DataSource} {n : ℕ}
      → ¬ P s
      → Moving P Edge rows rows' n
      → Moving P Edge (s ∷ rows) (s ∷ rows') n

pub Moving-map :
    {P P' : DataSource → Type 0} {Edge Edge' : DataSource → DataSource → Type 0}
    {rows rows' : List DataSource} {n : ℕ}
    → ((s : DataSource) → P s ↔ P' s)
    → ((s t : DataSource) → Edge s t → Edge' s t)
    → Moving P Edge rows rows' n
    → Moving P' Edge' rows rows' n
Moving-map same further done = done
Moving-map same further (moves {s} {t} p e rest) =
    moves ((same s).0 p) (further s t e) (Moving-map same further rest)
Moving-map same further (stays {s} p rest) =
    stays (λ q. p ((same s).1 q)) (Moving-map same further rest)

abbrev pub OneOf : List SourceStatus → SourceStatus → Type 0
OneOf [] status = ⊥
OneOf (from ∷ more) status = (status ≡ from) ⊎ OneOf more status

-- An undeleted row of the project with one of the given statuses.
abbrev pub Picked : LifecycleOptions → DataSource → Type 0
Picked opt s =
    (s.project_id ≡ opt.project_id) × (s.deleted_at ≡ none) × OneOf opt.from_statuses s.status

-- The row has the new status and the given times, and is otherwise as it was.
abbrev pub Lands : LifecycleOptions → ℕ → DataSource → DataSource → Type 0
Lands opt now s t =
    (t.status ≡ opt.to_status)
    × (opt.set_activated_at ≡ true → t.activated_at ≡ some now)
    × (opt.clear_paused_at ≡ true → t.paused_at ≡ none)
    × (t ≡ record s {
      status = t.status;
      activated_at = t.activated_at;
      paused_at = t.paused_at;
      updated_at = t.updated_at;
    })

-- How UpdateProjectDataSourcesLifecycle ends.
pub data LifecycleEnds (opt : LifecycleOptions) (rows rows' : List DataSource)
    (o : Outcome RepoErr ℕ) : Type 0 where
  nothing : o ≡ err failed_to_update → rows' ≡ rows → LifecycleEnds opt rows rows' o
  all :
      (now n : ℕ)
      → o ≡ ok n
      → Moving (Picked opt) (Lands opt now) rows rows' n
      → (¬ OneOf opt.from_statuses opt.to_status → All (λ s. ¬ Picked opt s) rows')
      → LifecycleEnds opt rows rows' o

same_status : (s t : SourceStatus) → (is_status s t ≡ true) ↔ (t ≡ s)
same_status s t = (λ h. ground arith, λ h. ground arith)

OneOf-any :
    (from : List SourceStatus) (status : SourceStatus)
    → (any (λ x. is_status x status) from ≡ true) ↔ OneOf from status
OneOf-any [] status = (λ h. cc, λ h. absurd h)
OneOf-any (x ∷ from) status = (
  (λ h. elim (Bool-cases (is_status x status)) [
    | inl same ↦ inl ((same_status x status).0 same)
    | inr other ↦ inr ((OneOf-any from status).0 (ground (arith, h, other)))
  ]),
  (λ h. elim h [
    | inl same ↦ ground (arith, (same_status x status).1 same)
    | inr later ↦ ground (arith, (OneOf-any from status).1 later)
  ]),
)

module _ (opt : LifecycleOptions) where
  Picked-in : (s : DataSource) → (in_lifecycle opt s ≡ true) ↔ Picked opt s
  unfolding in_lifecycle
  Picked-in s = (
    (λ h. (
      ground (arith, h, eq_iff s.project_id opt.project_id),
      ground (arith, h),
      (OneOf-any opt.from_statuses s.status).0 (ground (arith, h)),
    )),
    (λ picked. ground (
      arith,
      eq_iff s.project_id opt.project_id,
      picked.0,
      picked.1,
      (OneOf-any opt.from_statuses s.status).1 picked.2,
    )),
  )

  unpicked : (s : DataSource) → in_lifecycle opt s ≡ false → ¬ Picked opt s
  unpicked s other picked = let h = (Picked-in s).1 picked in cc

  module _ (now : ℕ) where
    Lands-to : (s : DataSource) → Lands opt now s (to_lifecycle opt now s)
    unfolding to_lifecycle
    Lands-to s = (refl, (λ h. ground (arith, h)), (λ h. ground (arith, h)), refl)

    Moving-move_all :
        (rows : List DataSource)
        → Moving
            (Picked opt)
            (Lands opt now)
            rows
            (move_all (in_lifecycle opt) (to_lifecycle opt now) rows)
            (count (in_lifecycle opt) rows)
    unfolding move_all
    Moving-move_all [] = done
    Moving-move_all (s ∷ rows) = elim (Bool-cases (in_lifecycle opt s)) [
      | inl picked ↦ rw picked (moves ((Picked-in s).0 picked) (Lands-to s) (Moving-move_all rows))
      | inr other ↦ rw other (
          subst
            (λ n.
              Moving (Picked opt) (Lands opt now) (s ∷ rows)
                (s ∷ move_all (in_lifecycle opt) (to_lifecycle opt now) rows) n)
            (omega arith) (stays (λ q. unpicked s other q) (Moving-move_all rows)))
    ]

    none_Picked :
        ¬ OneOf opt.from_statuses opt.to_status
        → (rows : List DataSource)
        → All (λ s. ¬ Picked opt s) (move_all (in_lifecycle opt) (to_lifecycle opt now) rows)
    unfolding move_all to_lifecycle
    none_Picked outside [] = tt
    none_Picked outside (s ∷ rows) = elim (Bool-cases (in_lifecycle opt s)) [
      | inl picked ↦ rw picked ((λ q. outside q.2), none_Picked outside rows)
      | inr other ↦ rw other ((λ q. unpicked s other q), none_Picked outside rows)
    ]

module _ (env : Env) (opt : LifecycleOptions) (w : World) where
  accepted_move :
      (now : ℕ) (v : World) (r : ℕ × World)
      → move_sources env opt now v ≡ some r
      → (r.0 ≡ count (in_lifecycle opt) v.sources)
        × (r.1.sources ≡ move_all (in_lifecycle opt) (to_lifecycle opt now) v.sources)
  unfolding move_sources
  accepted_move now v r h = (ground arith, ground arith)

  pub update_lifecycle-Ends :
      let run = update_project_data_sources_lifecycle env opt w in
      LifecycleEnds opt w.sources run.1.sources run.0
  unfolding update_project_data_sources_lifecycle ◌>>=◌ reading
  update_lifecycle-Ends =
      let now = env.clock w.readings in
      let v = record w { readings = suc w.readings } in
      elim (statement_cases failed_to_update (move_sources env opt now) v) [
        | inl fails ↦ rw fails (nothing refl refl)
        | inr (r, accepted, runs) ↦
            let (n, rows) = accepted_move now (spent v) r accepted in
            rw (runs, rows)
              (all now _ (ap ok n) (Moving-move_all opt now w.sources)
                (λ outside. none_Picked opt now outside w.sources))
      ]
