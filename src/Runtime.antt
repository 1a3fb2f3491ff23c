-- ===== src/Runtime.antt =====
-- What a use case runs in. The database and the outside are one `World`, passed from call to call: a
-- statement that was executed stays executed when a later one fails, as in the source.
-- `faults` is the schedule of failures: each database statement and each call of another service
-- takes one entry, and `true` makes it fail. A schedule stands for any driver error, a lost
-- connection or a malformed UUID, and theorems hold for every schedule.
-- `Env` holds what the program calls and does not implement.
pub mod Steps
pub mod Keeps
pub mod Calm
pub mod Spares
pub mod Values
pub mod Unsent
use ingest_srv.Shared.{
  ℕ, suc, String, Bool, true, false, Option, none, some, List, [], ◌∷◌, ◌⊎◌, inl, inr,
  if◌then◌else◌,
}
use ingest_srv.Model.{
  DataSource, CrawlTarget, DryrunResult, CrawlModeChange, Work, Message, UapRecord, StoredObject,
}
use ingest_srv.Json.{Json}

-- The tables: data sources newest first, targets oldest first, dry runs newest first, the audit
-- newest first; the requests sent to the analytics service, newest first; the jobs, tasks and
-- batches; the messages sent to the crawlers, the records published to Kafka and the objects
-- uploaded, each newest first; the failure schedule; how often the clock was read and how many
-- identifiers were drawn.
pub record World : Type 0 where
  pub sources : List DataSource
  pub targets : List CrawlTarget
  pub dryruns : List DryrunResult
  pub changes : List CrawlModeChange
  pub hidden : List (String × String)
  pub work : Work
  pub sent : List Message
  pub published : List UapRecord
  pub objects : List StoredObject
  pub faults : List Bool
  pub readings : ℕ
  pub drawn : ℕ

-- A value, an error, or a run-time panic.
pub data Outcome {ℓ κ} (E : Type ℓ) (A : Type κ) : Type (ℓ ⊔ κ) where
  ok : A → Outcome E A
  err : E → Outcome E A
  panic : Outcome E A

abbrev pub Exec {ℓ κ} : Type ℓ → Type κ → Type (ℓ ⊔ κ)
Exec E A = World → Outcome E A × World

-- What `project.Detail` answers: the status of the project, or the error.
pub data ProjectReply : Type 0 where
  live gone bad_request unauthorized forbidden unreachable : ProjectReply

pub record Env : Type 0 where
  -- the n-th reading of the clock, the n-th new UUID
  pub clock : ℕ → ℕ
  pub uuid : ℕ → String
  -- encoding/json and time.Format
  pub unmarshal : String → Option Json
  pub marshal : Json → String
  pub rfc3339 : ℕ → String
  -- url.ParseRequestURI: the scheme and the host
  pub request_uri : String → Option (String × String)
  -- the client of the project service, if there is one
  pub project : Option (String → ProjectReply)
  -- CancelProjectRuntime of the execution component, if it is wired
  pub cancel_runtime : Option (String → String → ℕ → World → Bool × World)
  -- ANALYTICS_API_INTERNAL_URL and INTERNAL_KEY are set
  pub analytics_url : Bool
  pub internal_key : Bool
  -- the texts of the two commands in the shared contract
  pub activate_text : String
  pub resume_text : String
  -- the data sources that another transaction holds a lock on
  pub locked : String → Bool
  -- the user of the request context
  pub user_id : String

infixl 5 ◌>>=◌ ◌>>◌
abbrev continue {ℓ κ μ} :
    {E : Type ℓ} {A : Type κ} {B : Type μ}
    → Outcome E A × World
    → (A → Exec E B)
    → Outcome E B × World
continue (ok a, w) f = f a w
continue (err e, w) f = (err e, w)
continue (panic, w) f = (panic, w)

unfoldable pub ◌>>=◌ {ℓ κ μ} :
    {E : Type ℓ} {A : Type κ} {B : Type μ} → Exec E A → (A → Exec E B) → Exec E B
◌>>=◌ m f w = continue (m w) f

abbrev pub ◌>>◌ {ℓ κ μ} : {E : Type ℓ} {A : Type κ} {B : Type μ} → Exec E A → Exec E B → Exec E B
m >> n = m >>= λ _. n

unfoldable pub pure {ℓ κ} : {E : Type ℓ} {A : Type κ} → A → Exec E A
pure a w = (ok a, w)

unfoldable pub fail {ℓ κ} : {E : Type ℓ} {A : Type κ} → E → Exec E A
fail e w = (err e, w)

-- `if err != nil { return err }`, where `none` is the nil error.
unfoldable pub check {ℓ} : {E : Type ℓ} → Option E → Exec E (Unit {0})
check none w = (ok tt, w)
check (some e) w = (err e, w)

abbrev pub map_err {ℓ κ μ} :
    {E : Type ℓ} {F : Type κ} {A : Type μ} → (E → F) → Outcome E A → Outcome F A
map_err f (ok a) = ok a
map_err f (err e) = err (f e)
map_err f panic = panic

-- `if err != nil { return f(err) }`.
unfoldable pub wrap {ℓ κ μ} : {E : Type ℓ} {F : Type κ} {A : Type μ} → (E → F) → Exec E A → Exec F A
wrap f m w = (map_err f (m w).0, (m w).1)

abbrev next_fault : List Bool → Bool
next_fault [] = false
next_fault (b ∷ bs) = b

abbrev later_faults : List Bool → List Bool
later_faults [] = []
later_faults (b ∷ bs) = bs

abbrev accept {ℓ κ} :
    {E : Type ℓ} {A : Type κ} → E → World → Option (A × World) → Outcome E A × World
accept e w none = (err e, w)
accept e w (some (a, w')) = (ok a, w')

-- One entry of the schedule is taken.
abbrev pub spent : World → World
spent w = record w { faults = later_faults w.faults }

-- One statement: it fails as the schedule says, or because the database rejects it (`none`).
unfoldable pub statement {ℓ κ} :
    {E : Type ℓ} {A : Type κ} → E → (World → Option (A × World)) → Exec E A
statement e run w =
    if next_fault w.faults then (err e, spent w) else accept e (spent w) (run (spent w))

-- A statement that only reads.
unfoldable pub query {ℓ κ} : {E : Type ℓ} {A : Type κ} → E → (World → A) → Exec E A
query e read w = if next_fault w.faults then (err e, spent w) else (ok (read w), spent w)

-- What a rolled back transaction leaves: the tables as they were.
abbrev pub rolled_back : World → World → World
rolled_back before w = record w {
  sources = before.sources;
  targets = before.targets;
  dryruns = before.dryruns;
  changes = before.changes;
  work = before.work;
}

abbrev finish {ℓ κ} : {E : Type ℓ} {A : Type κ} → World → Outcome E A × World → Outcome E A × World
finish before (ok a, w) = (ok a, w)
finish before (err e, w) = (err e, rolled_back before w)
finish before (panic, w) = (panic, rolled_back before w)

-- A body between BeginTx and the deferred Rollback.
unfoldable pub transaction {ℓ κ} : {E : Type ℓ} {A : Type κ} → Exec E A → Exec E A
transaction m w = finish w (m w)

abbrev settle {ℓ κ} :
    {E : Type ℓ} {A : Type κ} {F : Type ℓ} → Outcome E A × World → Outcome F (A ⊎ E) × World
settle (ok a, w) = (ok (inl a), w)
settle (err e, w) = (ok (inr e), w)
settle (panic, w) = (panic, w)

-- `a, err := m` where the caller goes on in either case.
unfoldable pub attempt {ℓ κ} : {E : Type ℓ} {A : Type κ} {F : Type ℓ} → Exec E A → Exec F (A ⊎ E)
attempt m w = settle (m w)

-- A call of another service. It takes an entry of the schedule too, so the answer, which depends on
-- the world, may differ from one call to the next.
unfoldable pub call {ℓ κ} : {E : Type ℓ} {A : Type κ} → (World → A) → Exec E A
call f w = (ok (f w), spent w)

-- time.Now()
unfoldable pub reading {ℓ} : {E : Type ℓ} → Env → Exec E ℕ
reading env w = (ok (env.clock w.readings), record w { readings = suc w.readings })

-- uuid.NewString()
unfoldable pub new_id {ℓ} : {E : Type ℓ} → Env → Exec E String
new_id env w = (ok (env.uuid w.drawn), record w { drawn = suc w.drawn })
