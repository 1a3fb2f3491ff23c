-- ===== src/Dryrun/Sample/Warned.antt =====
-- Which artifacts buildSuccessUpdate reports with a warning.
use ingest_srv.Shared.{Bool, true, false, Option, none, some, not, ◌||◌, ◌==◌, trim_space}
use ingest_srv.Json.{Json, Items, Fields, null, arr, obj, nil, cons, get}
use ingest_srv.Dryrun.Sample.{Sample, collection, collection_keys, text_of}

abbrev pub no_items : Items → Bool
no_items nil = true
no_items (cons x xs) = false

abbrev pub holds_items : Option Items → Bool
holds_items none = false
holds_items (some xs) = not (no_items xs)

-- The result is a collection, or an object whose first collection is not empty.
abbrev pub has_sample : Json → Bool
has_sample (arr xs) = true
has_sample (obj fs) = holds_items (collection collection_keys fs)
has_sample _ = false

-- The parameters carry a warning of the dispatch.
abbrev pub announces : Fields → Bool
announces params = not (
    trim_space (text_of (get params "dryrun_warning_code")) == ""
    || trim_space (text_of (get params "dryrun_warning_message")) == "")

abbrev pub is_null : Json → Bool
is_null null = true
is_null _ = false
