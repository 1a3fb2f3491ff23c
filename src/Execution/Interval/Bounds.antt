-- ===== src/Execution/Interval/Bounds.antt =====
-- The interval between two crawls of a target: its bounds, how it is rounded, and when there is none.
use ingest_srv.Shared.{
  ℕ, zero, suc, ◌+◌, ◌*◌, ◌≤◌, ◌<◌, ◌≡◌, ◌⊎◌, inl, inr, refl, Option, none, some, ℤ, pos, negsuc,
  arith, false, is_positive, ltb, Bool-cases, ◌/◌,
}
use ingest_srv.Model.{DataSource, CrawlTarget, CrawlMode}
use ingest_srv.Execution.Interval.{
  minute, clamp, mode_fifths, effective_minutes, compute_effective_interval,
}

-- `minutes` is the whole number nearest to `fifths` fifths, within 1 to 1440.
abbrev pub Nearest : ℕ → ℕ → Type 0
Nearest minutes fifths =
    ((minutes ≡ 1) × (2 * fifths < 15))
    ⊎ ((minutes ≡ 1440) × (14395 ≤ 2 * fifths))
    ⊎ ((10 * minutes ≤ 2 * fifths + 5) × (2 * fifths < 10 * minutes + 5))

pub data Scheduled (mode : Option CrawlMode) (interval : ℤ) (o : Option ℕ) : Type 0 where
  unscheduled :
      (mode ≡ none) ⊎ (is_positive interval ≡ false) → o ≡ none → Scheduled mode interval o
  every :
      (m : CrawlMode) (n minutes : ℕ)
      → mode ≡ some m
      → interval ≡ pos n
      → o ≡ some (minutes * minute)
      → 1 ≤ minutes
      → minutes ≤ 1440
      → Nearest minutes (n * mode_fifths m)
      → Scheduled mode interval o

clamp-Nearest : (x : ℕ) → Nearest (clamp ((2 * x + 5) / 10)) x
clamp-Nearest x = elim (Bool-cases (ltb ((2 * x + 5) / 10) 1)) [
  | inl low ↦ rw low (inl (refl, ground arith))
  | inr above ↦ elim (Bool-cases (ltb 1440 ((2 * x + 5) / 10))) [
    | inl high ↦ rw (above, high) (inr (inl (refl, ground arith)))
    | inr within ↦ rw (above, within) (inr (inr (omega arith)))
  ]
]

nearest : (n : ℕ) (m : CrawlMode) → Nearest (effective_minutes n m) (n * mode_fifths m)
unfolding effective_minutes
nearest n m = clamp-Nearest (n * mode_fifths m)

bounds : (n : ℕ) (m : CrawlMode) → (1 ≤ effective_minutes n m) × (effective_minutes n m ≤ 1440)
unfolding effective_minutes
bounds n m = ground arith

scheduled :
    (mode : Option CrawlMode) (interval : ℤ) (s : DataSource) (t : CrawlTarget)
    → s.crawl_mode ≡ mode
    → t.crawl_interval_minutes ≡ interval
    → Scheduled mode interval (compute_effective_interval s t)
unfolding compute_effective_interval
scheduled none (pos zero) s t p q = unscheduled (inl refl) (rw (p, q))
scheduled none (pos (suc n)) s t p q = unscheduled (inl refl) (rw (p, q))
scheduled none (negsuc n) s t p q = unscheduled (inl refl) (rw (p, q))
scheduled (some m) (negsuc n) s t p q = unscheduled (inr refl) (rw (p, q))
scheduled (some m) (pos zero) s t p q = unscheduled (inr refl) (rw (p, q))
scheduled (some m) (pos (suc n)) s t p q =
    every m (suc n) (effective_minutes (suc n) m) refl refl (rw (p, q)) (bounds (suc n) m).0
      (bounds (suc n) m).1 (nearest (suc n) m)

-- computeEffectiveInterval gives no interval exactly where the data source has no crawl mode or the
-- target's interval is not positive. Otherwise it is a whole number of minutes from 1 to 1440, the
-- nearest to the interval times the multiplier of the mode, if that lies within the bounds.
pub effective_interval-Scheduled :
    (s : DataSource) (t : CrawlTarget)
    → Scheduled s.crawl_mode t.crawl_interval_minutes (compute_effective_interval s t)
effective_interval-Scheduled s t = scheduled s.crawl_mode t.crawl_interval_minutes s t refl refl
