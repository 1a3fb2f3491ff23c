-- ===== src/Datasource/Lifecycle/Transitions.antt =====
-- Activate, Pause and Resume of one data source, over every world and every schedule of failures.
use ingest_srv.Shared.{String, Bool, true, false, none, some, ◌≡◌, refl, trim_space, arith}
use ingest_srv.Model.{DataSource, SourceStatus, is_status}
use ingest_srv.Runtime.{World, Env, err, wrap, ◌>>=◌}
use ingest_srv.Runtime.Steps.{SameTables, SameTables-refl, SameTables-trans, Post-check, Post-read}
use ingest_srv.Repository.Options.{update_of}
use ingest_srv.Repository.Sources.{find, live, update_data_source}
use ingest_srv.Datasource.Types.{Err, update_failed}
use ingest_srv.Datasource.Guards.{ensure_runtime_prerequisites}
use ingest_srv.Datasource.Guards.Reads.{Reads-prerequisites}
use ingest_srv.Datasource.Effects.{refused, Does, Post-load, finish_update}
use ingest_srv.Datasource.Lifecycle.{
  activate_data_source, pause_data_source, resume_data_source, unless,
}

-- The status was `from` and is `to`.
abbrev pub Moves : (from to : SourceStatus) → DataSource → DataSource → Type 0
Moves from to old new = (old.status ≡ from) × (new.status ≡ to)

pub is_status_sound : (s t : SourceStatus) → is_status s t ≡ true → s ≡ t
is_status_sound s t h = ground arith

pub unless-none : (b : Bool) (e : Err) → unless b e ≡ none → b ≡ true
unless-none true e h = refl
unless-none false e h = cc

-- An error before anything was written.
pub refuse :
    {A : Type 0} (Edge : DataSource → DataSource → Type 0) (w : World) (e : Err) (v : World)
    → SameTables w v
    → Does {A = A} Edge w (err e, v)
refuse Edge w e v same = refused e refl same.sources

module _ (env : Env) (id : String) (w : World) where
  -- Whatever the database answers, PauseDataSource ends without a panic, and it changes no data
  -- source but at most one, which is not deleted and goes from ACTIVE to PAUSED; if it returns an
  -- error, it changes none.
  pub pause-Does :
      Does (Moves SourceStatus.active SourceStatus.paused) w (pause_data_source env id w)
  unfolding pause_data_source
  pause-Does =
      let Edge = Moves SourceStatus.active SourceStatus.paused in
      Post-check (Does Edge w) _ _ w (λ e _. refuse Edge w e w (SameTables-refl w))
        (λ _. Post-load env (Does Edge w) _ (trim_space id) _ w (refuse Edge w) (λ s v same row.
          Post-check (Does Edge w) _ _ v (λ e _. refuse Edge w e v same)
            (λ allowed.
              finish_update env Edge _ _ (trim_space id) s w v same row refl
                (λ t moved. (is_status_sound _ _ (unless-none _ _ allowed), moved)))))

  -- Activate and Resume after their test of the status.
  start_Does :
      (from : SourceStatus) (e : Err) (s : DataSource) (v : World)
      → SameTables w v
      → live (find (trim_space id) w.sources) ≡ some s
      → s.status ≡ from
      → let opt = record (update_of s.id) {
        status = some SourceStatus.active;
        clear_paused_at = true;
      } in
        let run =
          ensure_runtime_prerequisites env s e
          >>= (λ _. wrap (λ _. update_failed) (update_data_source env opt)) in
        Does (Moves from SourceStatus.active) w (run v)
  start_Does from e s v same row status =
      let Edge = Moves from SourceStatus.active in
      Post-read (Does Edge w) _ v (Reads-prerequisites env s e)
        (λ f u still. refuse Edge w f u (SameTables-trans same still))
        (λ _ u still _.
          finish_update env Edge _ _ (trim_space id) s w u (SameTables-trans same still) row refl
            (λ t moved. (status, moved)))

  -- Whatever the database answers, ActivateDataSource ends without a panic, and it changes no data
  -- source but at most one, which is not deleted and goes from READY to ACTIVE; if it returns an
  -- error, it changes none.
  pub activate-Does :
      Does (Moves SourceStatus.ready SourceStatus.active) w (activate_data_source env id w)
  unfolding activate_data_source
  activate-Does =
      let Edge = Moves SourceStatus.ready SourceStatus.active in
      Post-check (Does Edge w) _ _ w (λ e _. refuse Edge w e w (SameTables-refl w))
        (λ _. Post-load env (Does Edge w) _ (trim_space id) _ w (refuse Edge w) (λ s v same row.
          Post-check (Does Edge w) _ _ v (λ e _. refuse Edge w e v same)
            (λ allowed.
              start_Does SourceStatus.ready _ s v same row
                (is_status_sound _ _ (unless-none _ _ allowed)))))

  -- Whatever the database answers, ResumeDataSource ends without a panic, and it changes no data
  -- source but at most one, which is not deleted and goes from PAUSED to ACTIVE; if it returns an
  -- error, it changes none.
  pub resume-Does :
      Does (Moves SourceStatus.paused SourceStatus.active) w (resume_data_source env id w)
  unfolding resume_data_source
  resume-Does =
      let Edge = Moves SourceStatus.paused SourceStatus.active in
      Post-check (Does Edge w) _ _ w (λ e _. refuse Edge w e w (SameTables-refl w))
        (λ _. Post-load env (Does Edge w) _ (trim_space id) _ w (refuse Edge w) (λ s v same row.
          Post-check (Does Edge w) _ _ v (λ e _. refuse Edge w e v same)
            (λ allowed.
              start_Does SourceStatus.paused _ s v same row
                (is_status_sound _ _ (unless-none _ _ allowed)))))
