-- ===== src/Execution/Interval.antt =====
-- computeEffectiveInterval and getModeMultiplier of usecase/helpers.go. The multipliers 1.0, 0.2 and
-- 5.0 are counted in fifths, and math.Round is rounding half up: the product of an interval and a
-- multiplier is a number of fifths, so it is never near a half, where the float64 could differ.
pub mod Bounds
use ingest_srv.Shared.{
  ℕ, ◌+◌, ◌*◌, ◌/◌, Option, none, some, ℤ, pos, negsuc, ltb, if◌then◌else◌, is_positive,
}
use ingest_srv.Model.{DataSource, CrawlTarget, CrawlMode, sleep, normal, crisis}

-- time.Minute
abbrev pub minute : ℕ
minute = 60_000_000_000

abbrev pub min_minutes : ℕ
min_minutes = 1

abbrev pub max_minutes : ℕ
max_minutes = 1440

unfoldable pub mode_fifths : CrawlMode → ℕ
mode_fifths normal = 5
mode_fifths crisis = 1
mode_fifths sleep = 25

abbrev clamp : ℕ → ℕ
clamp n =
    let low = if ltb n min_minutes then min_minutes else n in
    if ltb max_minutes low then max_minutes else low

unfoldable pub effective_minutes : ℕ → CrawlMode → ℕ
unfolding mode_fifths
effective_minutes interval mode = clamp ((2 * (interval * mode_fifths mode) + 5) / 10)

abbrev with_mode : ℤ → Option CrawlMode → Option ℕ
with_mode (pos n) (some mode) = some (effective_minutes n mode * minute)
with_mode _ _ = none

-- The duration in nanoseconds; every error is logged only.
unfoldable pub compute_effective_interval : DataSource → CrawlTarget → Option ℕ
compute_effective_interval s t =
    if is_positive t.crawl_interval_minutes
    then with_mode t.crawl_interval_minutes s.crawl_mode
    else none
