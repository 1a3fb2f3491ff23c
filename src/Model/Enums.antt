-- ===== src/Model/Enums.antt =====
-- internal/model/ingest_types.go: the string enumerations. `parse_…` is the cast of a text to the
-- PostgreSQL enumeration of the same values (migrations/001_create_schema_ingest_v1.sql), which
-- rejects every other text.
use ingest_srv.Shared.{
  String, Bool, true, false, Option, none, some, ◌==◌, ◌≡◌, refl, if◌then◌else◌,
}

pub data SourceType : Type 0 where
  tiktok facebook youtube file_upload webhook : SourceType

pub data SourceCategory : Type 0 where
  crawl passive : SourceCategory

pub data SourceStatus : Type 0 where
  pending ready active paused failed completed archived : SourceStatus

pub data OnboardingStatus : Type 0 where
  not_required pending analyzing suggested confirmed failed : OnboardingStatus

pub data DryrunStatus : Type 0 where
  not_required pending running success warning failed : DryrunStatus

pub data CrawlMode : Type 0 where
  sleep normal crisis : CrawlMode

pub data TargetType : Type 0 where
  keyword profile post_url : TargetType

pub data TriggerType : Type 0 where
  manual scheduled project_event crisis_event webhook_push : TriggerType

pub data JobStatus : Type 0 where
  pending running success partial failed cancelled : JobStatus

pub data BatchStatus : Type 0 where
  received downloaded parsed failed : BatchStatus

pub data PublishStatus : Type 0 where
  pending publishing success failed : PublishStatus

pub SourceStatus-discrete : Discrete SourceStatus
SourceStatus-discrete = hlevel

unfoldable pub show_source_type : SourceType → String
show_source_type tiktok = "TIKTOK"
show_source_type facebook = "FACEBOOK"
show_source_type youtube = "YOUTUBE"
show_source_type file_upload = "FILE_UPLOAD"
show_source_type webhook = "WEBHOOK"

unfoldable pub parse_source_type : String → Option SourceType
parse_source_type s =
    if s == "TIKTOK"
    then some tiktok
    else if s == "FACEBOOK"
    then some facebook
    else if s == "YOUTUBE"
    then some youtube
    else if s == "FILE_UPLOAD"
    then some file_upload
    else if s == "WEBHOOK"
    then some webhook
    else none

unfoldable pub show_category : SourceCategory → String
show_category crawl = "CRAWL"
show_category passive = "PASSIVE"

unfoldable pub parse_category : String → Option SourceCategory
parse_category s =
    if s == "CRAWL" then some crawl else if s == "PASSIVE" then some passive else none

unfoldable pub parse_dryrun_status : String → Option DryrunStatus
parse_dryrun_status s =
    if s == "NOT_REQUIRED"
    then some not_required
    else if s == "PENDING"
    then some DryrunStatus.pending
    else if s == "RUNNING"
    then some running
    else if s == "SUCCESS"
    then some success
    else if s == "WARNING"
    then some warning
    else if s == "FAILED"
    then some DryrunStatus.failed
    else none

unfoldable pub show_crawl_mode : CrawlMode → String
show_crawl_mode sleep = "SLEEP"
show_crawl_mode normal = "NORMAL"
show_crawl_mode crisis = "CRISIS"

unfoldable pub parse_crawl_mode : String → Option CrawlMode
parse_crawl_mode s =
    if s == "SLEEP"
    then some sleep
    else if s == "NORMAL"
    then some normal
    else if s == "CRISIS"
    then some crisis
    else none

unfoldable pub parse_target_type : String → Option TargetType
parse_target_type s =
    if s == "KEYWORD"
    then some keyword
    else if s == "PROFILE"
    then some profile
    else if s == "POST_URL"
    then some post_url
    else none

unfoldable pub parse_trigger_type : String → Option TriggerType
parse_trigger_type s =
    if s == "MANUAL"
    then some manual
    else if s == "SCHEDULED"
    then some scheduled
    else if s == "PROJECT_EVENT"
    then some project_event
    else if s == "CRISIS_EVENT"
    then some crisis_event
    else if s == "WEBHOOK_PUSH"
    then some webhook_push
    else none

unfoldable pub is_usable_dryrun_status : DryrunStatus → Bool
is_usable_dryrun_status success = true
is_usable_dryrun_status warning = true
is_usable_dryrun_status _ = false

unfoldable pub is_terminal_dryrun_status : DryrunStatus → Bool
is_terminal_dryrun_status failed = true
is_terminal_dryrun_status warning = true
is_terminal_dryrun_status success = true
is_terminal_dryrun_status _ = false

-- The arguments are ignored by the source. The source type is absent where the program reads it off
-- the zero value of a data source that was not found.
unfoldable pub is_dryrun_required : Option SourceType → TargetType → Bool
is_dryrun_required source_type target_type = false

-- The tests `status == …` on enumerations.
abbrev pub is_status : SourceStatus → SourceStatus → Bool
is_status pending pending = true
is_status ready ready = true
is_status active active = true
is_status paused paused = true
is_status failed failed = true
is_status completed completed = true
is_status archived archived = true
is_status _ _ = false

abbrev pub is_crawl : SourceCategory → Bool
is_crawl crawl = true
is_crawl passive = false

abbrev pub is_running : DryrunStatus → Bool
is_running running = true
is_running _ = false

abbrev pub is_failed : DryrunStatus → Bool
is_failed DryrunStatus.failed = true
is_failed _ = false

abbrev pub is_confirmed : OnboardingStatus → Bool
is_confirmed confirmed = true
is_confirmed _ = false

abbrev pub is_mode : CrawlMode → CrawlMode → Bool
is_mode sleep sleep = true
is_mode normal normal = true
is_mode crisis crisis = true
is_mode _ _ = false

abbrev pub is_keyword : TargetType → Bool
is_keyword keyword = true
is_keyword _ = false

-- A job or task that is under way.
abbrev pub is_live_job : JobStatus → Bool
is_live_job JobStatus.pending = true
is_live_job JobStatus.running = true
is_live_job JobStatus.partial = true
is_live_job _ = false

abbrev pub is_job : JobStatus → JobStatus → Bool
is_job JobStatus.pending JobStatus.pending = true
is_job JobStatus.running JobStatus.running = true
is_job JobStatus.success JobStatus.success = true
is_job JobStatus.partial JobStatus.partial = true
is_job JobStatus.failed JobStatus.failed = true
is_job JobStatus.cancelled JobStatus.cancelled = true
is_job _ _ = false

-- The text of a crawl mode is cast back to it.
pub parse_crawl_mode-show : (m : CrawlMode) → parse_crawl_mode (show_crawl_mode m) ≡ some m
unfolding parse_crawl_mode show_crawl_mode
parse_crawl_mode-show sleep = refl
parse_crawl_mode-show normal = refl
parse_crawl_mode-show crisis = refl
