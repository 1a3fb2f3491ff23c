-- ===== src/Execution/Store/Status/Classes.antt =====
-- recomputeScheduledJobStatus: what the status of a job says about its tasks.
use ingest_srv.Shared.{
  ℕ, ◌+◌, ◌≤◌, ◌<◌, Bool, none, List, [], ◌∷◌, ◌≡◌, ◌↔◌, refl, arith, count, length,
}
use ingest_srv.Model.{ScheduledJob, ExternalTask, JobStatus, is_job, is_live_job}
use ingest_srv.Execution.Services.{Services}
use ingest_srv.Execution.Store.Status.{
  Tally, tally, add_task, close_job, count_missing, expected_task_count, recomputed,
}

abbrev pub succeeded : ExternalTask → Bool
succeeded t = is_job JobStatus.success t.status

abbrev pub under_way : ExternalTask → Bool
under_way t = is_live_job t.status

-- The status of a job against the tasks of it that there are and the number that is expected.
pub record Classified (tasks : List ExternalTask) (expected : ℕ) (j : ScheduledJob) : Type 0 where
  pub all_succeeded : (j.status ≡ JobStatus.success) ↔ (count succeeded tasks ≡ expected)
  pub none_succeeded :
      (j.status ≡ JobStatus.failed) ↔ ((count under_way tasks ≡ 0) × (count succeeded tasks ≡ 0))
  pub none_broken :
      (j.status ≡ JobStatus.running)
      ↔ ((0 < count under_way tasks) × (count under_way tasks + count succeeded tasks ≡ expected))
  pub unfinished : (j.completed_at ≡ none) ↔ (0 < count under_way tasks)

-- The counts of the loop are those of the tasks.
record Counted (tasks : List ExternalTask) (c : Tally) : Type 0 where
  success : c.success_count ≡ count succeeded tasks
  running : c.running_count ≡ count under_way tasks
  total : c.success_count + c.failed_count + c.running_count ≡ length tasks

add-Counted :
    (t : ExternalTask) (ts : List ExternalTask) (c : Tally) (s : JobStatus)
    → t.status ≡ s
    → Counted ts c
    → Counted (t ∷ ts) (add_task s t c)
add-Counted t ts c JobStatus.pending is h = rw is (ground arith)
add-Counted t ts c JobStatus.running is h = rw is (ground arith)
add-Counted t ts c JobStatus.success is h = rw is (ground arith)
add-Counted t ts c JobStatus.partial is h = rw is (ground arith)
add-Counted t ts c JobStatus.failed is h = rw is (ground arith)
add-Counted t ts c JobStatus.cancelled is h = rw is (ground arith)

tally-Counted : (ts : List ExternalTask) → Counted ts (tally ts)
unfolding tally
tally-Counted [] = record { success = refl; running = refl; total = omega arith }
tally-Counted (t ∷ ts) = add-Counted t ts (tally ts) t.status refl (tally-Counted ts)

module _ (c : Tally) (n expected at : ℕ) (j : ScheduledJob) (enough : n ≤ expected)
    (some_task : 0 < n) (total : c.success_count + c.failed_count + c.running_count ≡ n) where
  abbrev closed : ScheduledJob
  closed = close_job (count_missing j expected n c) expected at j

  closed-success : (closed.status ≡ JobStatus.success) ↔ (c.success_count ≡ expected)
  unfolding close_job count_missing
  closed-success = (λ h. ground arith, λ h. ground arith)

  closed-failed :
      (closed.status ≡ JobStatus.failed) ↔ ((c.running_count ≡ 0) × (c.success_count ≡ 0))
  unfolding close_job count_missing
  closed-failed = (λ h. ground arith, λ h. ground arith)

  closed-running :
      (closed.status ≡ JobStatus.running)
      ↔ ((0 < c.running_count) × (c.running_count + c.success_count ≡ expected))
  unfolding close_job count_missing
  closed-running = (λ h. ground arith, λ h. ground arith)

  closed-unfinished : (closed.completed_at ≡ none) ↔ (0 < c.running_count)
  unfolding close_job count_missing
  closed-unfinished = (λ h. ground arith, λ h. ground arith)

-- Where a job has a task and no more tasks than it expects, recomputeScheduledJobStatus makes it
-- SUCCESS exactly if as many tasks succeeded as it expects, FAILED exactly if no task is under way
-- and none succeeded, RUNNING exactly if some are under way and the others that it expects succeeded,
-- and it has a completion time exactly if none is under way.
pub recomputed-Classified :
    (sv : Services) (t : ExternalTask) (ts : List ExternalTask) (at : ℕ) (j : ScheduledJob)
    → length (t ∷ ts) ≤ expected_task_count sv j.payload (length (t ∷ ts))
    → Classified
        (t ∷ ts)
        (expected_task_count sv j.payload (length (t ∷ ts)))
        (recomputed sv (t ∷ ts) at j)
unfolding recomputed
recomputed-Classified sv t ts at j enough =
    let h = tally-Counted (t ∷ ts) in
    let e = expected_task_count sv j.payload (length (t ∷ ts)) in
    record {
      all_succeeded =
          rw (← h.success) (closed-success (tally (t ∷ ts)) _ e at j enough (omega arith) h.total);
      none_succeeded =
          rw (← h.success, ← h.running)
            (closed-failed (tally (t ∷ ts)) _ e at j enough (omega arith) h.total);
      none_broken =
          rw (← h.success, ← h.running)
            (closed-running (tally (t ∷ ts)) _ e at j enough (omega arith) h.total);
      unfinished =
          rw (← h.running)
            (closed-unfinished (tally (t ∷ ts)) _ e at j enough (omega arith) h.total);
    }
