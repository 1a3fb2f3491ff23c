-- ===== src/Dryrun/Plan.antt =====
-- buildDispatchSpec of usecase/helpers.go and its parts: the task of a dry run, if its data source
-- and target have one. The only error is ErrUnsupportedMapping.
use ingest_srv.Shared.{
  ℕ, suc, String, Option, none, some, List, [], ◌∷◌, ◌==◌, ℤ, pos, decimal, if◌then◌else◌,
}
use ingest_srv.Json.{Items, Fields, num, str, arr, nil, cons, end, field, get, put}
use ingest_srv.Model.{
  DataSource, CrawlTarget, SourceType, TargetType, tiktok, facebook, youtube, keyword, post_url,
  is_crawl,
}
use ingest_srv.Execution.Specs.{extract_keywords, parse_ids_in, fields_of, array_of}
use ingest_srv.Dryrun.Types.{DryrunSpec, DryrunServices}

-- A limit that is missing or not positive is DryrunSampleLimitDefault.
unfoldable pub normalize_sample_limit : Option ℤ → ℕ
normalize_sample_limit (some (pos (suc n))) = suc n
normalize_sample_limit _ = 10

unfoldable pub build_keyword_sample_params : String → ℕ → Fields
unfolding decimal
build_keyword_sample_params k limit = field "keyword" (str k) (
    field "limit" (num (decimal limit)) (
      field "threshold" (num "0.5")
        (field "comment_count" (num "8") (field "runtime_kind" (str "dryrun") end))))

unfoldable pub build_facebook_keyword_sample_params : String → ℕ → Fields
unfolding decimal
build_facebook_keyword_sample_params k limit = field "keyword" (str k) (
    field "limit" (num (decimal limit)) (
      field "comment_count" (num "50")
        (field "comment_sort" (str "hot") (field "runtime_kind" (str "dryrun") end))))

unfoldable pub build_youtube_keyword_sample_params : String → ℕ → Fields
unfolding decimal
build_youtube_keyword_sample_params k limit = field "keyword" (str k) (
    field "limit" (num (decimal limit))
      (field "comment_count" (num "50") (field "runtime_kind" (str "dryrun") end)))

abbrev id_items : List String → Items
id_items [] = nil
id_items (i ∷ is) = cons (str i) (id_items is)

unfoldable pub build_post_detail_params : List String → ℕ → Fields
unfolding decimal
build_post_detail_params ids limit =
    field "parse_ids" (arr (id_items ids))
      (field "limit" (num (decimal limit)) (field "runtime_kind" (str "dryrun") end))

-- A dry run of a target with several keywords takes the first and says so.
abbrev warned : List String → Fields → Fields
warned [] params = params
warned (k ∷ ks) params =
    put (put params "dryrun_warning_code" (str "multi_value_keyword_target"))
      "dryrun_warning_message" (str "dryrun uses the first keyword value of the target group")

module _ (sv : DryrunServices) where
  abbrev keyword_spec : SourceType → ℕ → String → List String → Option DryrunSpec
  keyword_spec tiktok limit k more = some (record {
    queue = sv.tiktok_queue;
    action = "full_flow";
    params = warned more (build_keyword_sample_params k limit);
  })
  keyword_spec facebook limit k more = some (record {
    queue = sv.facebook_queue;
    action = "full_flow";
    params = warned more (build_facebook_keyword_sample_params k limit);
  })
  keyword_spec youtube limit k more = some (record {
    queue = sv.youtube_queue;
    action = "full_flow";
    params = warned more (build_youtube_keyword_sample_params k limit);
  })
  keyword_spec _ limit k more = none

  abbrev of_keywords : SourceType → ℕ → List String → Option DryrunSpec
  of_keywords source limit [] = none
  of_keywords source limit (k ∷ more) = keyword_spec source limit k more

  unfoldable pub build_keyword_dispatch_spec : SourceType → CrawlTarget → ℕ → Option DryrunSpec
  unfolding extract_keywords build_keyword_sample_params build_facebook_keyword_sample_params
      build_youtube_keyword_sample_params put
  build_keyword_dispatch_spec source target limit =
      of_keywords source limit (extract_keywords target.values)

  abbrev post_spec : ℕ → Option (List String) → Option DryrunSpec
  post_spec limit (some (i ∷ is)) = some (record {
    queue = sv.facebook_queue;
    action = "post_detail";
    params = build_post_detail_params (i ∷ is) limit;
  })
  post_spec limit _ = none

  -- No metadata is no map, as is a text that does not decode to one.
  unfoldable pub parse_ids_of : String → Option (List String)
  unfolding parse_ids_in get
  parse_ids_of meta =
      if meta == ""
      then none
      else parse_ids_in (array_of (get (fields_of (sv.base.unmarshal meta)) "parse_ids"))

  abbrev by_type : SourceType → CrawlTarget → ℕ → TargetType → Option DryrunSpec
  by_type source target limit keyword = build_keyword_dispatch_spec source target limit
  by_type facebook target limit post_url = post_spec limit (parse_ids_of target.platform_meta)
  by_type _ target limit _ = none

  abbrev for_target : DataSource → ℕ → Option CrawlTarget → Option DryrunSpec
  for_target source limit none = none
  for_target source limit (some target) =
      if is_crawl source.source_category
      then by_type source.source_type target limit target.target_type
      else none

  unfoldable pub build_dispatch_spec : DataSource → Option CrawlTarget → ℕ → Option DryrunSpec
  unfolding build_keyword_dispatch_spec build_post_detail_params parse_ids_of
  build_dispatch_spec source target limit = for_target source limit target
