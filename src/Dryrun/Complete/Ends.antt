-- ===== src/Dryrun/Complete/Ends.antt =====
-- How HandleCompletion may end, and what CompleteResult says of it.
use ingest_srv.Shared.{
  ℕ, is_some, ◌≢◌, Bool-cases, String, Bool, true, false, Option, none, some, ◌≡◌, refl, ◌∙◌, ap,
  sym, List, [], ◌∷◌, eq_iff, ◌⊎◌, inl, inr, first, ◌==◌, arith, trim_space, update_where,
}
use ingest_srv.Model.{DryrunResult, DryrunStatus, is_terminal_dryrun_status, DataSource}
use ingest_srv.Runtime.{World, Outcome, ok, err, panic}
use ingest_srv.Repository.Sources as Sources
use ingest_srv.Dryrun.Types.{DryrunErr, HandleCompletionInput}
use ingest_srv.Dryrun.Store.{CompleteResultOptions, find_result}
use ingest_srv.Dryrun.Store.Completes.{Synced, followed}
use ingest_srv.Dryrun.Complete.{is_over}

-- The dry run that a completion is about.
abbrev pub dryrun_of : HandleCompletionInput → World → Option DryrunResult
dryrun_of input w = first (λ d. d.job_id == trim_space input.task_id) w.dryruns

-- One of the three statuses of a dry run that has ended.
abbrev pub IsFinal : DryrunStatus → Type 0
IsFinal status =
    (status ≡ DryrunStatus.success)
    ⊎ ((status ≡ DryrunStatus.warning) ⊎ (status ≡ DryrunStatus.failed))

abbrev pub IsOver : DryrunResult → Type 0
IsOver d = IsFinal d.status ⊎ (d.completed_at ≢ none)

abbrev pub HasEnded : DryrunResult → DryrunResult → Type 0
HasEnded d row = (row.id ≡ d.id) × IsFinal row.status

-- The data source has the identifier and the status of the dry run, and a PENDING or READY one is
-- PENDING after a failure and READY otherwise.
abbrev pub Follows : DryrunResult → DataSource → DataSource → Type 0
Follows row source saved =
    (saved.id ≡ source.id)
    × (saved.dryrun_status ≡ row.status)
    × (saved.dryrun_last_result_id ≡ row.id)
    × (saved.status ≡ followed row.status source.status)

-- How HandleCompletion ends. A dry run that is over is left as it is; another one is ended, and its
-- data source follows.
pub data Finishes (input : HandleCompletionInput) (w : World)
    (r : Outcome DryrunErr (Unit {0}) × World) : Type 0 where
  refused :
      (e : DryrunErr)
      → r.0 ≡ err e
      → r.1.dryruns ≡ w.dryruns
      → r.1.sources ≡ w.sources
      → Finishes input w r
  repeated :
      (d : DryrunResult)
      → dryrun_of input w ≡ some d
      → IsOver d
      → ¬ (r.0 ≡ panic)
      → r.1.dryruns ≡ w.dryruns
      → Finishes input w r
  ended :
      (d old row : DryrunResult) (source saved : DataSource)
      → dryrun_of input w ≡ some d
      → ¬ IsOver d
      → r.0 ≡ ok tt
      → find_result d.id w ≡ some old
      → Sources.find old.source_id w.sources ≡ some source
      → source.deleted_at ≡ none
      → HasEnded d row
      → Follows row source saved
      → r.1.dryruns ≡ update_where (λ x. x.id == d.id) (λ x. row) w.dryruns
      → r.1.sources ≡ Sources.replace saved w.sources
      → Finishes input w r

first_sound :
    (p : DryrunResult → Bool) (xs : List DryrunResult) (x : DryrunResult)
    → first p xs ≡ some x
    → p x ≡ true
first_sound p [] x h = cc
first_sound p (y ∷ ys) x h = ground (arith, h, first_sound p ys x)

pub found_id :
    (id : String) (w : World) (old : DryrunResult) → find_result id w ≡ some old → old.id ≡ id
found_id id w old h = (eq_iff old.id id).0 (first_sound (λ d. d.id == id) w.dryruns old h)

ended_status : (status : DryrunStatus) → is_terminal_dryrun_status status ≡ true → IsFinal status
unfolding is_terminal_dryrun_status
ended_status DryrunStatus.success h = inl refl
ended_status DryrunStatus.warning h = inr (inl refl)
ended_status DryrunStatus.failed h = inr (inr refl)
ended_status DryrunStatus.not_required h = cc
ended_status DryrunStatus.pending h = cc
ended_status DryrunStatus.running h = cc

pub not_deleted : (o : Option ℕ) → is_some o ≡ false → o ≡ none
not_deleted none h = refl
not_deleted (some at) h = cc

final_status : (status : DryrunStatus) → IsFinal status → is_terminal_dryrun_status status ≡ true
unfolding is_terminal_dryrun_status
final_status status (inl is) = rw is refl
final_status status (inr (inl is)) = rw is refl
final_status status (inr (inr is)) = rw is refl

completed_then : (at : Option ℕ) → is_some at ≡ true → at ≢ none
completed_then none h p = cc
completed_then (some n) h p = cc

pub IsOver-is_over : (d : DryrunResult) → is_over d ≡ true → IsOver d
unfolding is_over
IsOver-is_over d over = elim (Bool-cases (is_terminal_dryrun_status d.status)) [
  | inl final ↦ inl (ended_status d.status final)
  | inr open_status ↦ inr (completed_then d.completed_at (ground (arith, over, open_status)))
]

pub not-IsOver : (d : DryrunResult) → is_over d ≡ false → ¬ IsOver d
unfolding is_over
not-IsOver d still (inl final) = let h = final_status d.status final in ground (arith, h, still)
not-IsOver d still (inr completed_at) =
    completed_at (not_deleted d.completed_at (ground (arith, still)))

pub has_ended :
    (opt : CompleteResultOptions) (d : DryrunResult) {old row : DryrunResult}
    {source saved : DataSource}
    → Synced opt old row source saved
    → old.id ≡ d.id
    → is_terminal_dryrun_status opt.status ≡ true
    → HasEnded d row
has_ended opt d {old} {row} synced here over = (
  synced.same_result ∙ here,
  ended_status row.status (ap is_terminal_dryrun_status synced.result_status ∙ over),
)

pub follows :
    (opt : CompleteResultOptions) {old row : DryrunResult} {source saved : DataSource}
    → Synced opt old row source saved
    → Follows row source saved
follows opt {old} {row} {source} synced = (
  synced.same_source,
  synced.dryrun_status ∙ sym synced.result_status,
  synced.last_result ∙ sym synced.same_result,
  synced.status ∙ ap (λ x. followed x source.status) (sym synced.result_status),
)
