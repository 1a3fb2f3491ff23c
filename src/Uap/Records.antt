-- ===== src/Uap/Records.antt =====
-- attribution.go, registry.go and the parts of helpers_common.go that every platform shares: the
-- attribution of a record, the chunks and the metadata of a batch.
pub mod Chunks
use Prim.Native.String.{◌++◌}
use ingest_srv.Shared.{
  ℕ, zero, suc, ◌+◌, ◌-◌, String, Bool, true, false, Option, none, some, List, [], ◌∷◌, ◌==◌, ◌&&◌,
  ◌||◌, ltb, length, trim_space, is_blank, to_lower, decimal, ℤ, pos, negsuc, any, map, take,
  if◌then◌else◌,
}
use ingest_srv.Json.{
  Json, Items, Fields, null, bool, num, str, arr, obj, nil, cons, end, field, get, put,
}
use ingest_srv.Model.{
  UapType, UapIdentity, UapHierarchy, UapContent, UapAuthor, UapEngagement, UapMedia, UapTemporal,
  UapRecord, post, comment, reply,
}
use ingest_srv.Runtime.{Env, Outcome, ok, panic}
use ingest_srv.Uap.Lines.{chunk_size, record_json, artifacts_json, stats_json}
use ingest_srv.Uap.Types.{UapErr, ParseInput, ArtifactPart, PublishStats, ParseFunc, UapServices}

abbrev pub blank_input : ParseInput → Bool
blank_input i = any is_blank (
    i.raw_batch_id ∷ i.project_id ∷ i.source_id ∷ i.task_id ∷ i.storage_bucket ∷ i.storage_path
    ∷ i.batch_id ∷ [])

abbrev pub fields_in : Option Json → Fields
fields_in (some (obj fs)) = fs
fields_in _ = end

abbrev pub text_in : Option Json → String
text_in (some (str s)) = s
text_in _ = ""

-- The keys of the request that are copied to the attribution, where they are not blank.
unfoldable pub copy_params : List String → Fields → Fields → Fields
unfolding trim_space get put
copy_params [] params smap = smap
copy_params (k ∷ ks) params smap =
    let value = trim_space (text_in (get params k)) in
    copy_params ks params (if value == "" then smap else put smap k (str value))

abbrev pub attribution_keys : List String
attribution_keys = "page_id" ∷ "profile_url" ∷ "username" ∷ "sec_uid" ∷ "keyword" ∷ []

unfoldable pub resolve_source_kind : String → Fields → String
unfolding trim_space get
resolve_source_kind action params =
    let value = trim_space (text_in (get params "source_kind")) in
    let kind = trim_space action in
    if value == ""
    then if kind == "page_full_flow"
      then "focused_page"
      else if kind == "user_full_flow"
      then "focused_profile"
      else if kind == "full_flow"
      then "keyword_search"
      else kind
    else value

abbrev pub drop {ℓ} : {A : Type ℓ} → ℕ → List A → List A
drop zero xs = xs
drop (suc n) [] = []
drop (suc n) (x ∷ xs) = drop n xs

-- The slices records[start:end] of the loop; each round takes at least one record, so the number of
-- records is enough fuel.
unfoldable pub chunks_from : ℕ → List UapRecord → List (List UapRecord)
chunks_from zero records = []
chunks_from (suc fuel) [] = []
chunks_from (suc fuel) (r ∷ rs) =
    take chunk_size (r ∷ rs) ∷ chunks_from fuel (drop chunk_size (r ∷ rs))

unfoldable pub chunk_records : List UapRecord → List (List UapRecord)
unfolding chunks_from
chunk_records records = chunks_from (length records) records

-- %05d
unfoldable pub five_digits : ℕ → String
unfolding decimal
five_digits n =
    if ltb n 10
    then "0000" ++ decimal n
    else if ltb n 100
    then "000" ++ decimal n
    else if ltb n 1000
    then "00" ++ decimal n
    else if ltb n 10000
    then "0" ++ decimal n
    else decimal n

abbrev pub with_stats : Option PublishStats → Fields → Fields
with_stats none root = root
with_stats (some s) root = put root "kafka_publish" (stats_json s)

abbrev pub map_of : Option Json → Option Fields
map_of (some (obj fs)) = some fs
map_of (some null) = none
map_of _ = some end

module _ (sv : UapServices) where
  -- json.Unmarshal into a map; anything but an object leaves it empty.
  abbrev pub root_of : String → Fields
  root_of text = if text == "" then end else fields_in (sv.base.unmarshal text)

  unfoldable pub request_params : String → Fields
  unfolding get
  request_params raw = fields_in (get (root_of raw) "params")

  unfoldable pub with_ingest_attribution : UapRecord → ParseInput → UapRecord
  unfolding copy_params resolve_source_kind request_params trim_space put get
  with_ingest_attribution r input =
      let params = request_params input.request_payload in
      let smap = field "data_source_id" (str (trim_space input.source_id)) (
        field "target_id" (str (trim_space input.target_id)) (
          field "external_task_id" (str (trim_space input.external_task_id)) (
            field "task_id" (str (trim_space input.task_id))
              (field "source_kind" (str (resolve_source_kind input.action params)) end)))) in
      record r {
        platform_meta = put r.platform_meta "smap" (obj (copy_params attribution_keys params smap));
      }

  unfoldable pub extract_crawl_keyword : String → String
  unfolding trim_space get request_params
  extract_crawl_keyword raw = trim_space (text_in (get (request_params raw) "keyword"))

  unfoldable pub marshal_chunk : List UapRecord → String
  unfolding record_json
  marshal_chunk [] = ""
  marshal_chunk (r ∷ rs) = sv.base.marshal (record_json r) ++ ("\n" ++ marshal_chunk rs)

  unfoldable pub build_part_path : ParseInput → ℕ → String
  unfolding trim_space five_digits
  build_part_path input part_no = sv.path_join (
      "uap-batches"
      ∷ trim_space input.project_id
      ∷ trim_space input.source_id
      ∷ trim_space input.batch_id
      ∷ ("part-" ++ (five_digits part_no ++ ".jsonl"))
      ∷ [])

  -- The map that the existing metadata decode to. The document null leaves a nil map, into which
  -- the assignment panics; a text that is no object is replaced by an empty map.
  abbrev pub metadata_root : String → Option Fields
  metadata_root text = if text == "" then some end else map_of (sv.base.unmarshal text)

  abbrev merged :
      List ArtifactPart → ℕ → Option PublishStats → Option Fields → Outcome UapErr String
  merged parts total stats none = panic
  merged parts total stats (some root) = ok (
      sv.base.marshal
        (obj (with_stats stats (put root "uap_artifacts" (artifacts_json parts total)))))

  unfoldable pub merge_raw_metadata :
      String → List ArtifactPart → ℕ → Option PublishStats → Outcome UapErr String
  unfolding artifacts_json stats_json put
  merge_raw_metadata existing parts total stats = merged parts total stats (metadata_root existing)

  -- resolveParser
  unfoldable pub resolve_parser : String → String → Option ParseFunc
  unfolding trim_space to_lower
  resolve_parser platform action =
      let p = to_lower (trim_space platform) in
      let a = to_lower (trim_space action) in
      if p == "tiktok" && (a == "full_flow" || a == "user_full_flow")
      then some sv.flatten_tiktok
      else if p == "youtube" && a == "full_flow"
      then some sv.flatten_youtube
      else if p == "facebook" && (a == "full_flow" || a == "page_full_flow")
      then some sv.flatten_facebook
      else none
