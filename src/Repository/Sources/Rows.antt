-- ===== src/Repository/Sources/Rows.antt =====
-- The rows of the table of data sources under a write: which row is found, and what is left alone.
use ingest_srv.Shared.{
  String, some, List, [], ◌∷◌, ◌==◌, ◌≡◌, arith, eq_iff, map_option, if◌then◌else◌,
}
use ingest_srv.Model.{DataSource}
use ingest_srv.Repository.Sources.{find, replace}

-- The row that is found has the identifier that was asked for.
pub find-id :
    (id : String) (rows : List DataSource) {s : DataSource} → find id rows ≡ some s → s.id ≡ id
find-id id [] h = ground arith
find-id id (r ∷ rows) {s} h = ground (arith, find-id id rows {s = s}, eq_iff r.id id)

-- After a replacement the row is found under its identifier, if there was one.
pub find-replace :
    (id : String) (r : DataSource) (rows : List DataSource)
    → find id (replace r rows)
      ≡ (if r.id == id then map_option (λ old. r) (find id rows) else find id rows)
unfolding replace
find-replace id r [] = ground arith
find-replace id r (s ∷ rows) =
    ground (arith, find-replace id r rows, eq_iff s.id r.id, eq_iff s.id id, eq_iff r.id id)
