-- ===== src/Datasource/Effects.antt =====
-- What a use case does to the table of data sources, and the rules that the proofs about single data
-- sources share.
use ingest_srv.Shared.{
  String, ◌≡◌, refl, sym, ◌∙◌, Option, none, some, List, inl, inr, arith, ap, subst,
}
use ingest_srv.Model.{DataSource}
use ingest_srv.Runtime.{World, Outcome, ok, err, Exec, Env, ◌>>=◌, pure, fail, wrap, map_err}
use ingest_srv.Runtime.Steps.{
  SameTables, Reads, Post, Post-read, Reads-query, Reads-wrap, query_cases, value_of, not_value,
  wrap_value,
}
use ingest_srv.Repository.Options.{RepoErr, failed_to_get, UpdateDataSourceOptions}
use ingest_srv.Repository.Sources.{find, replace, live, detail_data_source, update_data_source}
use ingest_srv.Repository.Sources.Rows.{find-id}
use ingest_srv.Repository.Sources.Writes.{
  Updated, failed, absent, written, update_data_source_lem, new_status,
}
use ingest_srv.Datasource.Types.{Err, not_found}
use ingest_srv.Datasource.Guards.{found}

-- An operation that writes one data source: an error leaves all rows as they were, and a success
-- leaves them too or replaces one row, which is not deleted, by one that `Edge` relates it to.
pub data Effect (E A : Type 0) (Edge : DataSource → DataSource → Type 0) (rows : List DataSource)
    (r : Outcome E A × World) : Type 0 where
  refused : (e : E) → r.0 ≡ err e → r.1.sources ≡ rows → Effect E A Edge rows r
  quiet : (a : A) → r.0 ≡ ok a → r.1.sources ≡ rows → Effect E A Edge rows r
  moved :
      (a : A) (s t : DataSource)
      → r.0 ≡ ok a
      → find s.id rows ≡ some s
      → s.deleted_at ≡ none
      → t.id ≡ s.id
      → Edge s t
      → r.1.sources ≡ replace t rows
      → Effect E A Edge rows r

-- The rows before and after are related by `Effect`.
abbrev pub Does :
    {E A : Type 0} → (DataSource → DataSource → Type 0) → World → Outcome E A × World → Type 0
Does {E} {A} Edge w r = Effect E A Edge w.sources r

live-some :
    (o : Option DataSource) {s : DataSource}
    → live o ≡ some s
    → (o ≡ some s) × (s.deleted_at ≡ none)
live-some none h = cc
live-some (some t) h = ground arith

-- A live row is the row that was found, and it is not deleted.
pub live_row :
    (id : String) (rows : List DataSource) {s : DataSource}
    → live (find id rows) ≡ some s
    → (find id rows ≡ some s) × (s.id ≡ id) × (s.deleted_at ≡ none)
live_row id rows h =
    let (here, undeleted) = live-some (find id rows) h in (here, find-id id rows here, undeleted)

-- An error that is translated is the same effect.
translated :
    {A : Type 0} (Edge : DataSource → DataSource → Type 0) (f : RepoErr → Err)
    (rows : List DataSource) (r : Outcome RepoErr A × World)
    → Effect RepoErr A Edge rows r
    → Effect Err A Edge rows (map_err f r.0, r.1)
translated Edge f rows r (refused e answer same) = refused (f e) (ap (map_err f) answer) same
translated Edge f rows r (quiet a answer same) = quiet a (ap (map_err f) answer) same
translated Edge f rows r (moved a s t answer here undeleted id edge same) =
    moved a s t (ap (map_err f) answer) here undeleted id edge same

pub wrap_effect :
    {A : Type 0} (Edge : DataSource → DataSource → Type 0) (f : RepoErr → Err) (m : Exec RepoErr A)
    (w v : World)
    → Does Edge w (m v)
    → Does Edge w (wrap f m v)
unfolding wrap
wrap_effect Edge f m w v done = translated Edge f w.sources (m v) done

pub one_row : {o : Option DataSource} {s t : DataSource} → o ≡ some s → o ≡ some t → t ≡ s
one_row p q = cc

-- What UpdateDataSource did is an effect, when the row it was asked for is live.
Updated-Effect :
    (Edge : DataSource → DataSource → Type 0) (f : RepoErr → Err) (opt : UpdateDataSourceOptions)
    (rows : List DataSource) (s : DataSource) (o : Outcome RepoErr (Option DataSource)) (w : World)
    → (find opt.id rows ≡ some s) × (s.id ≡ opt.id) × (s.deleted_at ≡ none)
    → ((t : DataSource) → t.status ≡ new_status opt.status s.status → Edge s t)
    → Updated opt rows w.sources o
    → Effect Err (Option DataSource) Edge rows (map_err f o, w)
Updated-Effect Edge f opt rows s o w row edge (failed e answer same) =
    refused (f e) (ap (map_err f) answer) same
Updated-Effect Edge f opt rows s o w row edge (absent answer gone same) =
    quiet none (ap (map_err f) answer) same
Updated-Effect Edge f opt rows s o w (here, key, undeleted) edge
      (written t r there answer status id same) =
    let agree = one_row here there in
    let under_id = ap (λ i. find i rows) key in
    moved (some r) s r (ap (map_err f) answer) (under_id ∙ here) undeleted
      (id ∙ ap (λ x. x.id) agree) (edge r (status ∙ ap (λ x. new_status opt.status x.status) agree))
      same

found-Effect :
    (Edge : DataSource → DataSource → Type 0) (f : RepoErr → Err) (opt : UpdateDataSourceOptions)
    (rows : List DataSource) (s : DataSource) (m : Exec RepoErr (Option DataSource)) (v : World)
    → (find opt.id rows ≡ some s) × (s.id ≡ opt.id) × (s.deleted_at ≡ none)
    → ((t : DataSource) → t.status ≡ new_status opt.status s.status → Edge s t)
    → Updated opt rows (m v).1.sources (m v).0
    → Effect Err DataSource Edge rows ((wrap f m >>= found) v)
unfolding ◌>>=◌ wrap pure fail
found-Effect Edge f opt rows s m v row edge (failed e answer same) =
    rw answer (refused (f e) refl same)
found-Effect Edge f opt rows s m v row edge (absent answer gone same) =
    rw answer (refused not_found refl same)
found-Effect Edge f opt rows s m v (here, key, undeleted) edge
      (written t r there answer status id same) =
    let agree = one_row here there in
    let under_id = ap (λ i. find i rows) key in
    rw answer (
      moved r s r refl (under_id ∙ here) undeleted (id ∙ ap (λ x. x.id) agree)
        (edge r (status ∙ ap (λ x. new_status opt.status x.status) agree)) same)

module _ (env : Env) where
  pub Reads-detail : (id : String) → Reads (detail_data_source env id)
  unfolding detail_data_source
  Reads-detail id = Reads-query failed_to_get _

  pub detail_value :
      (id : String) (w : World) {o : Option DataSource}
      → (detail_data_source env id w).0 ≡ ok o
      → live (find id w.sources) ≡ o
  unfolding detail_data_source
  detail_value id w h = elim (query_cases failed_to_get (λ v. live (find id v.sources)) w) [
    | inl fails ↦ absurd (not_value fails h)
    | inr runs ↦ value_of runs h
  ]

  found_cases :
      {B : Type 0} (P : Outcome Err B × World → Type 0) (k : DataSource → Exec Err B)
      (o : Option DataSource) (v : World)
      → P (err not_found, v)
      → ((s : DataSource) → o ≡ some s → Post P (k s v))
      → Post P ((found o >>= k) v)
  unfolding ◌>>=◌ pure fail
  found_cases P k none v refuse goes = refuse
  found_cases P k (some s) v refuse goes = goes s refl

  -- The rule for `source, err := DetailDataSource(id)` with its two early returns.
  pub Post-load :
      {B : Type 0} (P : Outcome Err B × World → Type 0) (f : RepoErr → Err) (id : String)
      (k : DataSource → Exec Err B) (w : World)
      → ((e : Err) (v : World) → SameTables w v → P (err e, v))
      → ((s : DataSource) (v : World)
          → SameTables w v
          → live (find id w.sources) ≡ some s
          → Post P (k s v))
      → Post P ((wrap f (detail_data_source env id) >>= λ row. found row >>= k) w)
  Post-load P f id k w fails goes =
      Post-read P (λ row. found row >>= k) w (Reads-wrap f _ (Reads-detail id)) fails
        (λ o v same h.
          found_cases P k o v (fails not_found v same)
            (λ s here. goes s v same (detail_value id w (wrap_value f _ w h) ∙ here)))

  -- UpdateDataSource of a row that was read before, as the last call of an operation.
  pub finish_update :
      (Edge : DataSource → DataSource → Type 0) (f : RepoErr → Err) (opt : UpdateDataSourceOptions)
      (id : String) (s : DataSource) (w v : World)
      → SameTables w v
      → live (find id w.sources) ≡ some s
      → opt.id ≡ s.id
      → ((t : DataSource) → t.status ≡ new_status opt.status s.status → Edge s t)
      → Does Edge w (wrap f (update_data_source env opt) v)
  unfolding wrap
  finish_update Edge f opt id s w v same row key edge =
      let (here, under, undeleted) = live_row id w.sources row in
      let rows = ap (λ i. find i w.sources) (key ∙ under) in
      let run = update_data_source env opt v in
      Updated-Effect Edge f opt w.sources s run.0 run.1 (rows ∙ here, sym key, undeleted) edge
        (subst (λ rows. Updated opt rows run.1.sources run.0) same.sources
          (update_data_source_lem env opt v))

  -- UpdateDataSource as the last call but the test that the row is there.
  pub finish_found :
      (Edge : DataSource → DataSource → Type 0) (f : RepoErr → Err) (opt : UpdateDataSourceOptions)
      (id : String) (s : DataSource) (w v : World)
      → SameTables w v
      → live (find id w.sources) ≡ some s
      → opt.id ≡ s.id
      → ((t : DataSource) → t.status ≡ new_status opt.status s.status → Edge s t)
      → Does Edge w ((wrap f (update_data_source env opt) >>= found) v)
  finish_found Edge f opt id s w v same row key edge =
      let (here, under, undeleted) = live_row id w.sources row in
      let rows = ap (λ i. find i w.sources) (key ∙ under) in
      found-Effect Edge f opt w.sources s (update_data_source env opt) v
        (rows ∙ here, sym key, undeleted) edge
        (subst
          (λ rows.
            Updated opt rows (update_data_source env opt v).1.sources
              (update_data_source env opt v).0)
          same.sources (update_data_source_lem env opt v))
