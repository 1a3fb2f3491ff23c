-- ===== src/Dryrun/Trigger/Guarded.antt =====
-- Trigger: where a dry run may be started, and what starting it does.
use ingest_srv.Shared.{true, Option, none, some, ◌≡◌, trim_space, refl, ◌⊎◌, inl, inr}
use ingest_srv.Model.{CrawlTarget, DataSource, SourceStatus}
use ingest_srv.Runtime.{World, Outcome, ok, err, pure, fail}
use ingest_srv.Runtime.Steps.{
  Reads, Reads-pure, Reads-fail, SameTables, SameTables-refl, Reads-new_id, SameTables-trans,
  Post-read, Post-check,
}
use ingest_srv.Datasource.Dryrun.{is_validating}
use ingest_srv.Dryrun.Types.{DryrunErr, TriggerInput, TriggerOutput, DryrunSpec, DryrunServices}
use ingest_srv.Dryrun.Plan.{normalize_sample_limit, build_dispatch_spec}
use ingest_srv.Dryrun.Trigger.{trigger, target_for, supported}
use ingest_srv.Repository.Sources as Sources
use ingest_srv.Dryrun.Trigger.Finds.{source_there}
use ingest_srv.Dryrun.Trigger.Latest.{Reads-get_source, Reads-target_for}
use ingest_srv.Dryrun.Trigger.Launches.{Launches, Launches_before, launch-Launches}
use ingest_srv.Dryrun.Trigger.Fits.{Fits, guard_passed, target_fits}

-- A run of Trigger from a world does nothing, or the guards of the source hold there and a dry run is
-- launched.
pub data Guarded (sv : DryrunServices) (input : TriggerInput) (w : World)
    (r : Outcome DryrunErr TriggerOutput × World) : Type 0 where
  idle : (e : DryrunErr) → r.0 ≡ err e → SameTables w r.1 → Guarded sv input w r
  begun :
      (source : DataSource) (target : Option CrawlTarget) (spec : DryrunSpec)
      → Sources.find (trim_space input.source_id) w.sources ≡ some source
      → source.deleted_at ≡ none
      → (source.status ≡ SourceStatus.pending) ⊎ (source.status ≡ SourceStatus.ready)
      → Fits w source input.target_id target
      → build_dispatch_spec sv source target (normalize_sample_limit input.sample_limit) ≡ some spec
      → Launches input source spec w r
      → Guarded sv input w r

pending_or_ready :
    (status : SourceStatus)
    → is_validating status ≡ true
    → (status ≡ SourceStatus.pending) ⊎ (status ≡ SourceStatus.ready)
pending_or_ready SourceStatus.pending h = inl refl
pending_or_ready SourceStatus.ready h = inr refl
pending_or_ready SourceStatus.active h = cc
pending_or_ready SourceStatus.paused h = cc
pending_or_ready SourceStatus.failed h = cc
pending_or_ready SourceStatus.completed h = cc
pending_or_ready SourceStatus.archived h = cc

supported_spec :
    (o : Option DryrunSpec) (spec : DryrunSpec) (w : World)
    → (supported o w).0 ≡ ok spec
    → o ≡ some spec
unfolding pure fail
supported_spec none spec w h = cc
supported_spec (some s) spec w h = cc

Reads-supported : (o : Option DryrunSpec) → Reads (supported o)
Reads-supported none = Reads-fail _
Reads-supported (some spec) = Reads-pure spec

-- Trigger never panics. It returns an error and changes no table and sends nothing; or the data
-- source with the trimmed identifier of the input is in the table, undeleted and PENDING or READY, a
-- crawl is tested with the target of the trimmed identifier, which is in the table and whose latest
-- dry run is not RUNNING if it has an identifier, another data source without a target, and
-- buildDispatchSpec has a task for them. In the second case Trigger fails and sends nothing; or it
-- succeeds, adds a RUNNING dry run of that data source and that target as the newest one, and sends
-- one message more, which has the queue, the action and the parameters of that task and the
-- identifier of the job of the dry run.
pub trigger-Guarded :
    (sv : DryrunServices) (input : TriggerInput) (w : World)
    → Guarded sv input w (trigger sv input w)
unfolding trigger target_for
trigger-Guarded sv input w =
    Post-check (Guarded sv input w) _ _ w (λ e _. idle e refl (SameTables-refl w))
      (λ _.
        Post-read (Guarded sv input w) _ w (Reads-get_source sv input.source_id)
          (λ e v s. idle e refl s)
          (λ source v same is.
            Post-check (Guarded sv input w) _ _ v (λ e _. idle e refl same)
              (λ validating.
                Post-read (Guarded sv input w) _ v (Reads-target_for sv source input.target_id)
                  (λ e u s. idle e refl (SameTables-trans same s))
                  (λ target u stay fits.
                    let near = SameTables-trans same stay in
                    Post-read (Guarded sv input w) _ u (Reads-supported _)
                      (λ e x s. idle e refl (SameTables-trans near s))
                      (λ spec x s got.
                        Post-read (Guarded sv input w) _ x (Reads-new_id sv.base)
                          (λ e y t. idle e refl (SameTables-trans (SameTables-trans near s) t))
                          (λ id y t _.
                            let (there, undeleted) = source_there sv input.source_id w source is in
                            begun source target spec there undeleted
                              (pending_or_ready source.status (guard_passed _ _ validating))
                              (target_fits sv source input.target_id _ w v target refl same fits)
                              (supported_spec _ spec u got)
                              (Launches_before (SameTables-trans (SameTables-trans near s) t)
                                (launch-Launches sv input source spec y id))))))))
