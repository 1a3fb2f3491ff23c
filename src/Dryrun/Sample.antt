-- ===== src/Dryrun/Sample.antt =====
-- buildSuccessUpdate and buildSamplePayload of usecase/helpers.go: the sample, the totals and the
-- warnings that are read off an artifact. A RawMessage is its text, the nil one the empty text.
pub mod Bounds
pub mod Warned
use ingest_srv.Shared.{
  ℕ, zero, suc, String, Bool, true, false, Option, none, some, List, [], ◌∷◌, ◌==◌, ◌||◌, ◌++◌, leb,
  is_empty, is_positive, trim_space, ℤ, pos, negsuc, if◌then◌else◌,
}
use ingest_srv.Json.{Json, Items, Fields, null, num, str, arr, obj, nil, cons, end, field, get}
use ingest_srv.Model.{DryrunStatus}
use ingest_srv.Runtime.{Env}

pub record Warning : Type 0 where
  pub code : String
  pub message : String

pub record UpdateResultOptions : Type 0 where
  pub id : String
  pub status : DryrunStatus
  pub sample_count : ℕ
  pub completed_at : Option ℕ
  pub total_found : Option ℤ
  pub sample_data : String
  pub warnings : String
  pub error_message : String

-- The four results of buildSamplePayload.
pub record Sample : Type 0 where
  pub sample_data : String
  pub sample_count : ℕ
  pub total_found : Option ℤ
  pub warnings : String

abbrev pub count_items : Items → ℕ
count_items nil = 0
count_items (cons x xs) = suc (count_items xs)

-- items[:n]
abbrev pub take_items : ℕ → Items → Items
take_items zero xs = nil
take_items (suc n) nil = nil
take_items (suc n) (cons x xs) = cons x (take_items n xs)

unfoldable pub truncate_items : ℤ → Items → Items
truncate_items (pos zero) xs = xs
truncate_items (pos (suc n)) xs = if leb (count_items xs) (suc n) then xs else take_items (suc n) xs
truncate_items (negsuc n) xs = xs

abbrev positive_or : ℤ → Option ℤ → Option ℤ
positive_or n other = if is_positive n then some n else other

abbrev only_positive : Option ℤ → Option ℤ
only_positive none = none
only_positive (some n) = if is_positive n then some n else none

unfoldable pub normalize_total_found : ℤ → Option ℤ → Option ℤ
normalize_total_found item_count fallback = positive_or item_count (only_positive fallback)

-- The keys under which an object may hold its collection, in the order of the loop.
abbrev pub collection_keys : List String
collection_keys = "posts" ∷ "items" ∷ "data" ∷ "results" ∷ "comments" ∷ "videos" ∷ []

-- The first of the keys that holds an array.
unfoldable pub collection : List String → Fields → Option Items
unfolding get
collection [] fs = none
collection (k ∷ ks) fs =
    let rest = collection ks fs in elim (get fs k) [ some (arr xs) ↦ some xs | _ ↦ rest ]

abbrev pub fields_of : Option Json → Fields
fields_of (some (obj fs)) = fs
fields_of _ = end

abbrev pub text_of : Option Json → String
text_of (some (str s)) = s
text_of _ = ""

-- json.Unmarshal into a map, which the document null leaves nil.
abbrev pub object_of : Option Json → Option Fields
object_of (some (obj fs)) = some fs
object_of (some null) = some end
object_of _ = none

abbrev pub no_sample : Warning
no_sample = record {
  code = "no_sample_data_extracted";
  message = "crawler returned success without sample result payload";
}

abbrev pub empty_collection : Warning
empty_collection = record {
  code = "no_sample_data_extracted";
  message = "crawler returned an empty collection";
}

abbrev pub unreadable_result : Warning
unreadable_result = record {
  code = "invalid_dryrun_artifact";
  message = "crawler result payload is not valid JSON";
}

abbrev pub unreadable_artifact : Warning
unreadable_artifact = record {
  code = "invalid_dryrun_artifact";
  message = "dryrun artifact cannot be parsed as JSON";
}

abbrev pub object_sample : Warning
object_sample = record {
  code = "object_sample_fallback";
  message = "crawler result payload is an object; dryrun stores the object as a single sample";
}

abbrev pub scalar_sample : Warning
scalar_sample = record {
  code = "object_sample_fallback";
  message = "crawler result payload is scalar; dryrun stores it as a single sample";
}

abbrev warning_items : List Warning → Items
warning_items [] = nil
warning_items (v ∷ vs) =
    cons (obj (field "code" (str v.code) (field "message" (str v.message) end))) (warning_items vs)

-- Go's conversion of a float64, which a JSON number names, to an integer, and json.Unmarshal of a
-- text into a slice of warnings are parameters.
module _ (env : Env) (integer : String → ℤ) (decode_warnings : String → List Warning) where
  unfoldable pub parse_int : Option Json → ℤ
  parse_int (some (num n)) = integer n
  parse_int _ = pos 0

  -- marshalJSON, of an interface that is nil where the key is missing or null.
  unfoldable pub marshal_json : Option Json → String
  marshal_json none = ""
  marshal_json (some null) = ""
  marshal_json (some d) = env.marshal d

  -- marshalJSON of a slice: the empty sample is a nil slice, which is marshalled as null.
  abbrev pub marshal_items : Items → String
  marshal_items nil = env.marshal null
  marshal_items (cons x xs) = env.marshal (arr (cons x xs))

  unfoldable pub marshal_warnings : List Warning → String
  marshal_warnings [] = ""
  marshal_warnings (v ∷ vs) = env.marshal (arr (warning_items (v ∷ vs)))

  unfoldable pub append_warning_from_params : Fields → String → String
  unfolding get trim_space
  append_warning_from_params params warnings =
      let code = trim_space (text_of (get params "dryrun_warning_code")) in
      let message = trim_space (text_of (get params "dryrun_warning_message")) in
      if code == "" || message == ""
      then warnings
      else marshal_warnings (
          (if warnings == "" then [] else decode_warnings warnings)
          ++ (record { code = code; message = message } ∷ []))

  unfoldable pub normalize_total_found_from_object : Fields → Option ℤ → Option ℤ
  unfolding get parse_int
  normalize_total_found_from_object fs fallback =
      positive_or (parse_int (get fs "total_posts"))
        (positive_or (parse_int (get fs "item_count")) fallback)

  abbrev or_length : Option ℤ → Items → Option ℤ
  or_length none xs = some (pos (count_items xs))
  or_length (some n) xs = some n

  -- The totals of an object with a collection; here item_count comes before total_posts.
  unfoldable pub total_of_collection : Fields → Items → Option ℤ → Option ℤ
  unfolding get parse_int
  total_of_collection fs xs total =
      positive_or (parse_int (get fs "item_count"))
        (positive_or (parse_int (get fs "total_posts")) (or_length total xs))

  abbrev pub sample_of : Items → Option ℤ → Sample
  sample_of nil total = record {
    sample_data = "";
    sample_count = 0;
    total_found = total;
    warnings = marshal_warnings (empty_collection ∷ []);
  }
  sample_of (cons x xs) total = record {
    sample_data = marshal_items (cons x xs);
    sample_count = count_items (cons x xs);
    total_found = total;
    warnings = "";
  }

  abbrev pub single : Json → Option ℤ → Warning → Sample
  single d total warning = record {
    sample_data = env.marshal (arr (cons d nil));
    sample_count = 1;
    total_found = total;
    warnings = marshal_warnings (warning ∷ []);
  }

  abbrev pub no_data : Option ℤ → Warning → Sample
  no_data total warning = record {
    sample_data = "";
    sample_count = 0;
    total_found = total;
    warnings = marshal_warnings (warning ∷ []);
  }

  abbrev pub of_object : Fields → Option Items → ℤ → Option ℤ → Sample
  of_object fs (some xs) limit total =
      sample_of (truncate_items limit xs) (total_of_collection fs xs total)
  of_object fs none limit total =
      single (obj fs) (normalize_total_found_from_object fs total) object_sample

  -- The switch on the type of the payload.
  unfoldable pub of_payload : Option Json → ℤ → Option ℤ → Sample
  of_payload none limit total = no_data total unreadable_result
  of_payload (some (arr xs)) limit total = record {
    sample_data = marshal_items (truncate_items limit xs);
    sample_count = count_items (truncate_items limit xs);
    total_found = some (pos (count_items xs));
    warnings = "";
  }
  of_payload (some (obj fs)) limit total = of_object fs (collection collection_keys fs) limit total
  of_payload (some d) limit total = single d total scalar_sample

  unfoldable pub build_sample_payload : String → ℤ → ℤ → Option ℤ → Sample
  unfolding normalize_total_found
  build_sample_payload raw limit item_count fallback =
      let total = normalize_total_found item_count fallback in
      if raw == "" || raw == "null"
      then no_data total no_sample
      else of_payload (env.unmarshal raw) limit total

  -- The limit of the artifact's parameters, or DryrunSampleLimitDefault.
  unfoldable pub sample_limit : Fields → ℤ
  unfolding get parse_int
  sample_limit params =
      let limit = parse_int (get params "limit") in if is_positive limit then limit else pos 10

  abbrev pub update_of : Sample → String → UpdateResultOptions
  update_of s warnings = record {
    id = "";
    status = if warnings == "" then DryrunStatus.success else DryrunStatus.warning;
    sample_count = s.sample_count;
    completed_at = none;
    total_found = s.total_found;
    sample_data = s.sample_data;
    warnings = warnings;
    error_message = "";
  }

  abbrev pub of_artifact : Option Fields → Option ℤ → UpdateResultOptions
  of_artifact none fallback = record {
    id = "";
    status = DryrunStatus.warning;
    sample_count = 0;
    completed_at = none;
    total_found = none;
    sample_data = "";
    warnings = marshal_warnings (unreadable_artifact ∷ []);
    error_message = "";
  }
  of_artifact (some artifact) fallback =
      let params = fields_of (get artifact "params") in
      let s =
        build_sample_payload (marshal_json (get artifact "result")) (sample_limit params)
          (parse_int (get artifact "item_count")) fallback in
      update_of s (append_warning_from_params params s.warnings)

  unfoldable pub build_success_update : String → Option ℤ → UpdateResultOptions
  build_success_update raw fallback = of_artifact (object_of (env.unmarshal raw)) fallback
