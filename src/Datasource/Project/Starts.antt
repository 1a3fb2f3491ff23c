-- ===== src/Datasource/Project/Starts.antt =====
-- Activate and Resume of a project: which data sources they start.
use ingest_srv.Shared.{
  ℕ, String, Option, none, some, List, [], ◌∷◌, ◌≡◌, ◌∙◌, refl, subst, inl, inr, ◌↔◌, Bool-cases,
  trim_space,
}
use ingest_srv.Model.{
  DataSource, CrawlTarget, SourceStatus, SourceCategory, crawl, passive, is_dryrun_required,
}
use ingest_srv.Runtime.{World, Env, Outcome, ok, err, Exec, pure, wrap, ◌>>=◌}
use ingest_srv.Runtime.Steps.{
  Reads, Reads-pure, Reads-fail, Reads-check, Reads-wrap, Reads-bind, Post-read, Post-check,
}
use ingest_srv.Repository.Options.{RepoErr, LifecycleOptions}
use ingest_srv.Repository.Sources.{update_project_data_sources_lifecycle}
use ingest_srv.Repository.Sources.Lifecycle.{
  LifecycleEnds, nothing, all, Moving, Moving-map, OneOf, Picked, Lands, update_lifecycle-Ends,
}
use ingest_srv.Datasource.Types.{
  Err, activate, resume, activate_not_allowed, resume_not_allowed, Command, update_failed,
  ProjectLifecycleOutput,
}
use ingest_srv.Datasource.Guards.Reads.{Reads-list}
use ingest_srv.Datasource.Readiness.{
  Tally, Scan, scan_targets, scan_eligible, scan_source, scan_sources,
  is_status_allowed_for_command, with_command, get_activation_readiness,
}
use ingest_srv.Datasource.Readiness.Counts.{Reads-sources}
use ingest_srv.Datasource.Project.{
  start_sources, activate_project, activate_options, resume_project, resume_options, count_output,
}

module _ (env : Env) where
  Reads-scan_targets :
      (s : DataSource) (ts : List CrawlTarget) (scan : Scan) → Reads (scan_targets env s ts scan)
  unfolding scan_targets is_dryrun_required
  Reads-scan_targets s [] scan = Reads-pure scan
  Reads-scan_targets s (t ∷ ts) scan = elim (Bool-cases t.is_active) [
    | inl is ↦ rw is (Reads-scan_targets s ts _)
    | inr isnt ↦ rw isnt (Reads-scan_targets s ts scan)
  ]

  Reads-scan_eligible :
      (s : DataSource) (category : SourceCategory) (t : Tally)
      → Reads (scan_eligible env s category t)
  Reads-scan_eligible s passive t = Reads-pure _
  Reads-scan_eligible s crawl t =
      Reads-bind _ _ (Reads-wrap _ _ (Reads-list env s.id "" none))
        (λ ts. Reads-bind _ _ (Reads-scan_targets s ts _) (λ scan. Reads-pure _))

  Reads-scan_source :
      (command : Command) (s : DataSource) (t : Tally) → Reads (scan_source env command s t)
  unfolding scan_source
  Reads-scan_source command s t =
      elim (Bool-cases (is_status_allowed_for_command s.status command)) [
        | inl allowed ↦ rw (scan_source, allowed) (Reads-scan_eligible s s.source_category t)
        | inr refused ↦ rw (scan_source, refused) (Reads-pure _)
      ]

  Reads-scan_sources :
      (command : Command) (ss : List DataSource) (t : Tally) → Reads (scan_sources env command ss t)
  unfolding scan_sources
  Reads-scan_sources command [] t = Reads-pure t
  Reads-scan_sources command (s ∷ ss) t =
      Reads-bind _ _ (Reads-scan_source command s t) (λ next. Reads-scan_sources command ss next)

  Reads-with_command : (o : Option Command) → Reads (with_command env o)
  Reads-with_command none = Reads-fail _
  Reads-with_command (some command) = Reads-pure command

  pub Reads-readiness :
      (project_id command : String) → Reads (get_activation_readiness env project_id command)
  unfolding get_activation_readiness
  Reads-readiness project_id command = Reads-bind _ _ (Reads-check _) (λ _.
      Reads-bind _ _ (Reads-with_command _) (λ c.
        Reads-bind _ _ (Reads-wrap _ _ (Reads-sources env _))
          (λ ss. Reads-bind _ _ (Reads-scan_sources c ss _) (λ t. Reads-pure _))))

-- An undeleted data source of the project with the status.
abbrev pub Waits : String → SourceStatus → DataSource → Type 0
Waits project_id from s = (s.project_id ≡ project_id) × (s.deleted_at ≡ none) × (s.status ≡ from)

-- The row is ACTIVE since then, and is otherwise as it was.
abbrev pub Begins : ℕ → DataSource → DataSource → Type 0
Begins now s t =
    (t.status ≡ SourceStatus.active)
    × (t.activated_at ≡ some now)
    × (t.paused_at ≡ none)
    × (t ≡ record s {
      status = t.status;
      activated_at = t.activated_at;
      paused_at = t.paused_at;
      updated_at = t.updated_at;
    })

-- How a project is started: nothing changes, or exactly the data sources that wait are started.
pub data Starts (project_id : String) (from : SourceStatus) (w : World)
    (r : Outcome Err ProjectLifecycleOutput × World) : Type 0 where
  refused : (e : Err) → r.0 ≡ err e → r.1.sources ≡ w.sources → Starts project_id from w r
  started :
      (now : ℕ) (out : ProjectLifecycleOutput)
      → r.0 ≡ ok out
      → Moving (Waits project_id from) (Begins now) w.sources r.1.sources out.affected
      → Starts project_id from w r

-- The options ask for what `Waits` and `Begins` say.
record Asks (project_id : String) (from : SourceStatus) (opt : LifecycleOptions) : Type 0 where
  picks : (s : DataSource) → Picked opt s ↔ Waits project_id from s
  lands : (now : ℕ) (s t : DataSource) → Lands opt now s t → Begins now s t

ended :
    (opt : LifecycleOptions) (project_id : String) (from : SourceStatus) (m : Exec RepoErr ℕ)
    (w v : World)
    → Asks project_id from opt
    → LifecycleEnds opt w.sources (m v).1.sources (m v).0
    → Starts project_id from w
        ((wrap (λ _. update_failed) m >>= λ n. pure (count_output project_id n)) v)
unfolding ◌>>=◌ wrap pure
ended opt project_id from m w v asks (nothing answer same) =
    rw answer (refused update_failed refl same)
ended opt project_id from m w v asks (all now n answer rows left) =
    rw answer (started now _ refl (Moving-map asks.picks (asks.lands now) rows))

one_of : (from status : SourceStatus) → OneOf (from ∷ []) status ↔ (status ≡ from)
one_of from status =
    ((λ h. elim h [ inl same ↦ same | inr none_left ↦ absurd none_left ]), (λ same. inl same))

activate-Asks :
    (project_id : String) → Asks project_id SourceStatus.ready (activate_options project_id)
unfolding activate_options
activate-Asks project_id = record {
  picks = λ s.
      ((λ p. (p.0, p.1, (one_of _ s.status).0 p.2)), (λ p. (p.0, p.1, (one_of _ s.status).1 p.2)));
  lands = λ now s t l. (l.0, l.1 refl, l.2 refl, l.3);
}

resume-Asks :
    (project_id : String) → Asks project_id SourceStatus.paused (resume_options project_id)
unfolding resume_options
resume-Asks project_id = record {
  picks = λ s.
      ((λ p. (p.0, p.1, (one_of _ s.status).0 p.2)), (λ p. (p.0, p.1, (one_of _ s.status).1 p.2)));
  lands = λ now s t l. (l.0, l.1 refl, l.2 refl, l.3);
}

module _ (env : Env) (w : World) where
  start_sources-Starts :
      (project_id : String) (command : Command) (text : String) (e : Err) (from : SourceStatus)
      (opt : LifecycleOptions)
      → Asks project_id from opt
      → Starts project_id from w (start_sources env project_id command text e opt w)
  unfolding start_sources
  start_sources-Starts project_id command text e from opt asks =
      Post-check (Starts project_id from w) _ _ w (λ f _. refused f refl refl)
        (λ _.
          Post-read (Starts project_id from w) _ w (Reads-readiness env project_id text)
            (λ f v same. refused f refl same.sources)
            (λ readiness v same _.
              Post-check (Starts project_id from w) _ _ v (λ f _. refused f refl same.sources)
                (λ _.
                  Post-read (Starts project_id from w) _ v
                    (Reads-wrap _ _ (Reads-sources env project_id))
                    (λ f u still. refused f refl (still.sources ∙ same.sources))
                    (λ ss u still _.
                      Post-check (Starts project_id from w) _ _ u
                        (λ f _. refused f refl (still.sources ∙ same.sources))
                        (λ _. ended opt project_id from _ w u asks (
                          subst
                            (λ rows.
                              LifecycleEnds opt rows
                                (update_project_data_sources_lifecycle env opt u).1.sources
                                (update_project_data_sources_lifecycle env opt u).0)
                            (still.sources ∙ same.sources) (update_lifecycle-Ends env opt u)))))))

  -- Whatever the database answers, Activate of a project ends without a panic. It returns an error
  -- and changes no data source, or it moves exactly the READY data sources of the project that are
  -- not deleted to ACTIVE, with the time and without a time of a pause, and returns how many there
  -- were.
  pub activate_project-Starts :
      (id : String) → Starts (trim_space id) SourceStatus.ready w (activate_project env id w)
  unfolding activate_project
  activate_project-Starts id =
      start_sources-Starts (trim_space id) activate env.activate_text activate_not_allowed
        SourceStatus.ready (activate_options (trim_space id)) (activate-Asks (trim_space id))

  -- Whatever the database answers, Resume of a project ends without a panic. It returns an error and
  -- changes no data source, or it moves exactly the PAUSED data sources of the project that are not
  -- deleted to ACTIVE, with the time and without a time of a pause, and returns how many there were.
  pub resume_project-Starts :
      (id : String) → Starts (trim_space id) SourceStatus.paused w (resume_project env id w)
  unfolding resume_project
  resume_project-Starts id =
      start_sources-Starts (trim_space id) resume env.resume_text resume_not_allowed
        SourceStatus.paused (resume_options (trim_space id)) (resume-Asks (trim_space id))
