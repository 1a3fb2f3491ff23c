-- ===== src/Model.antt =====
-- internal/model: the enumerations (`Model/Enums`) and the rows (`Model/Records`, `Model/Jobs`,
-- `Model/Uap`).
mod Enums
mod Records
mod Jobs
mod Uap
pub use Enums.*
unfoldable pub use Enums.{
  show_source_type, parse_source_type, show_category, parse_category, parse_dryrun_status,
  show_crawl_mode, parse_crawl_mode, parse_target_type, parse_trigger_type, is_usable_dryrun_status,
  is_dryrun_required, is_terminal_dryrun_status,
}
pub use Records.*
pub use Jobs.*
pub use Uap.*
