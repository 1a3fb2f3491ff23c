-- ===== src/Execution/Specs.antt =====
-- buildDispatchSpecs of usecase/helpers.go and the helpers that read platform_meta: the crawl tasks of
-- a target. A number of a document is named by its text.
pub mod Tasks
use ingest_srv.Shared.{
  ℕ, String, Bool, true, false, Option, none, some, List, [], ◌∷◌, ◌==◌, ◌&&◌, not, trim_space,
  trim_at, is_handle, has_digits, split_slash, map, is_empty, if◌then◌else◌,
}
use ingest_srv.Json.{Json, Items, Fields, nil, cons, end, field, num, str, arr, obj, null, get}
use ingest_srv.Model.{
  CrawlTarget, DataSource, SourceType, TargetType, tiktok, facebook, youtube, file_upload, webhook,
  keyword, profile, post_url,
}
use ingest_srv.Runtime.{Outcome, ok, err}
use ingest_srv.Execution.Services.{Services, Url}
use ingest_srv.Execution.Types.{
  Err, dispatch_not_allowed, unsupported_dispatch_mapping, platform_meta_parse_ids,
  facebook_page_id_required, tiktok_profile_required, DispatchSpec,
}

unfoldable pub extract_keywords : List String → List String
unfolding trim_space
extract_keywords [] = []
extract_keywords (v ∷ vs) =
    let rest = extract_keywords vs in if trim_space v == "" then rest else trim_space v ∷ rest

unfoldable pub tiktok_params : String → Fields
tiktok_params k =
    field "keyword" (str k) (
      field "limit" (num "5") (field "threshold" (num "0.3") (field "comment_count" (num "8") end)))

unfoldable pub facebook_params : String → Fields
facebook_params k = field "keyword" (str k) (
    field "limit" (num "5")
      (field "comment_count" (num "8") (field "comment_sort" (str "hot") end)))

unfoldable pub youtube_params : String → Fields
youtube_params k =
    field "keyword" (str k) (field "limit" (num "5") (field "comment_count" (num "8") end))

abbrev pub keyword_spec : String → (String → Fields) → String → DispatchSpec
keyword_spec queue params k = record {
  queue = queue;
  action = "full_flow";
  params = params k;
  keyword = k;
}

abbrev pub refuse_empty : Err → List DispatchSpec → Outcome Err (List DispatchSpec)
refuse_empty e [] = err e
refuse_empty e (s ∷ ss) = ok (s ∷ ss)

-- One task for each keyword.
unfoldable pub keyword_specs :
    String → (String → Fields) → List String → Outcome Err (List DispatchSpec)
unfolding extract_keywords
keyword_specs queue params values =
    refuse_empty dispatch_not_allowed (map (keyword_spec queue params) (extract_keywords values))

abbrev pub keep_string : Json → List String → List String
keep_string (str s) rest = if trim_space s == "" then rest else trim_space s ∷ rest
keep_string _ rest = rest

unfoldable pub string_items : Items → List String
unfolding trim_space
string_items nil = []
string_items (cons x xs) = keep_string x (string_items xs)

abbrev pub slice_of : Option Json → List String
slice_of (some (arr xs)) = string_items xs
slice_of _ = []

abbrev pub string_of : Option Json → String
string_of (some (str s)) = trim_space s
string_of _ = ""

abbrev pub fields_of : Option Json → Fields
fields_of (some (obj fs)) = fs
fields_of _ = end

-- parse_ids must hold texts only; blank ones are left out.
unfoldable pub parse_ids_in : Items → Option (List String)
unfolding trim_space
parse_ids_in nil = some []
parse_ids_in (cons (str s) xs) = elim (parse_ids_in xs) [
  | none ↦ none
  | some ids ↦ some (if trim_space s == "" then ids else trim_space s ∷ ids)
]
parse_ids_in (cons _ xs) = none

abbrev pub not_empty : Option (List String) → Outcome Err (List String)
not_empty (some (id ∷ ids)) = ok (id ∷ ids)
not_empty _ = err platform_meta_parse_ids

abbrev pub array_of : Option Json → Items
array_of (some (arr xs)) = xs
array_of _ = nil

abbrev pub items_of : List String → Items
items_of [] = nil
items_of (s ∷ ss) = cons (str s) (items_of ss)

pub record FacebookPage : Type 0 where
  pub page_id : String
  pub url : String

pub record TikTokProfile : Type 0 where
  pub username : String
  pub sec_uid : String
  pub url : String

abbrev pub head_or : String → List String → String
head_or d [] = d
head_or d (x ∷ xs) = x

abbrev pub tail_of : List String → List String
tail_of [] = []
tail_of (x ∷ xs) = xs

abbrev pub else_text : String → String → String
else_text a b = if a == "" then b else a

-- `^\d{5,}$`
abbrev pub is_page_id : String → Bool
is_page_id = has_digits 5

abbrev pub prepend {ℓ} : {A : Type ℓ} → A → Option (List A) → Option (List A)
prepend a none = none
prepend a (some as') = some (a ∷ as')

unfoldable pub first_page_id : List String → String
unfolding trim_space has_digits
first_page_id [] = ""
first_page_id (s ∷ ss) =
    let rest = first_page_id ss in if is_page_id (trim_space s) then trim_space s else rest

unfoldable pub first_handle : List String → String
unfolding trim_space is_handle trim_at
first_handle [] = ""
first_handle (s ∷ ss) =
    let rest = first_handle ss in if is_handle (trim_space s) then trim_at (trim_space s) else rest

abbrev pub page_of_url : Option Url → String
page_of_url none = ""
page_of_url (some u) =
    if is_page_id (trim_space u.id) then trim_space u.id else first_page_id (split_slash u.path)

abbrev pub handle_of_url : Option Url → String
handle_of_url none = ""
handle_of_url (some u) = first_handle (split_slash u.path)

module _ (sv : Services) where
  -- parsePlatformMetaMap: no metadata is no map.
  abbrev pub meta_of : CrawlTarget → Fields
  meta_of t = if t.platform_meta == "" then end else fields_of (sv.base.unmarshal t.platform_meta)

  unfoldable pub parse_facebook_parse_ids : CrawlTarget → Outcome Err (List String)
  unfolding parse_ids_in get
  parse_facebook_parse_ids t = not_empty (parse_ids_in (array_of (get (meta_of t) "parse_ids")))

  unfoldable pub extract_facebook_page_id_from_url : String → String
  unfolding trim_space first_page_id split_slash has_digits
  extract_facebook_page_id_from_url raw = page_of_url (sv.parse_url (trim_space raw))

  unfoldable pub extract_tiktok_username_from_url : String → String
  unfolding trim_space first_handle split_slash
  extract_tiktok_username_from_url raw = handle_of_url (sv.parse_url (trim_space raw))

  -- The loop: `ids` are the page_ids from the current index on.
  unfoldable pub pages_from : List String → String → List String → Option (List FacebookPage)
  unfolding extract_facebook_page_id_from_url trim_space has_digits
  pages_from ids fallback [] = some []
  pages_from ids fallback (raw ∷ raws) =
      let candidate =
        trim_space (
          else_text (else_text (head_or "" ids) fallback)
            (extract_facebook_page_id_from_url raw)) in
      let rest = pages_from (tail_of ids) fallback raws in
      if is_page_id candidate
      then prepend (record { page_id = candidate; url = trim_space raw }) rest
      else none

  unfoldable pub resolve_facebook_page_targets : CrawlTarget → Option (List FacebookPage)
  unfolding pages_from string_items get
  resolve_facebook_page_targets t =
      pages_from (slice_of (get (meta_of t) "page_ids")) (string_of (get (meta_of t) "page_id"))
        t.values

  unfoldable pub profiles_from :
      List String → List String → String → String → List String → Option (List TikTokProfile)
  unfolding extract_tiktok_username_from_url trim_space trim_at
  profiles_from usernames sec_uids username sec_uid [] = some []
  profiles_from usernames sec_uids username sec_uid (raw ∷ raws) =
      let given = else_text (trim_at (trim_space (head_or "" usernames))) username in
      let uid = else_text (trim_space (head_or "" sec_uids)) sec_uid in
      let name = if given == "" && uid == "" then extract_tiktok_username_from_url raw else given in
      let rest = profiles_from (tail_of usernames) (tail_of sec_uids) username sec_uid raws in
      if name == "" && uid == ""
      then none
      else prepend
          (record { username = trim_space name; sec_uid = trim_space uid; url = trim_space raw })
          rest

  unfoldable pub resolve_tiktok_profile_targets : CrawlTarget → Option (List TikTokProfile)
  unfolding profiles_from string_items get
  resolve_tiktok_profile_targets t =
      let meta = meta_of t in
      profiles_from (slice_of (get meta "usernames")) (slice_of (get meta "sec_uids"))
        (trim_at (string_of (get meta "username"))) (string_of (get meta "sec_uid")) t.values

  unfoldable pub page_spec : FacebookPage → DispatchSpec
  page_spec p = record {
    queue = sv.facebook_queue;
    action = "page_full_flow";
    params = field "page_id" (str p.page_id) (
        field "profile_url" (str p.url) (
          field "count" (num "2")
            (field "comment_count" (num "8") (field "comment_sort" (str "hot") end))));
    keyword = "";
  }

  unfoldable pub profile_spec : TikTokProfile → DispatchSpec
  profile_spec p = record {
    queue = sv.tiktok_queue;
    action = "user_full_flow";
    params = field "profile_url" (str p.url) (
        field "count" (num "5") (
          field "threshold" (num "0.3") (
            field "comment_count" (num "8") (
              if p.sec_uid == ""
              then field "username" (str p.username) end
              else field "sec_uid" (str p.sec_uid) end))));
    keyword = "";
  }

  abbrev pub page_specs : Option (List FacebookPage) → Outcome Err (List DispatchSpec)
  page_specs none = err facebook_page_id_required
  page_specs (some ps) = refuse_empty facebook_page_id_required (map page_spec ps)

  abbrev pub profile_specs : Option (List TikTokProfile) → Outcome Err (List DispatchSpec)
  profile_specs none = err tiktok_profile_required
  profile_specs (some ps) = refuse_empty tiktok_profile_required (map profile_spec ps)

  abbrev pub post_spec : Outcome Err (List String) → Outcome Err (List DispatchSpec)
  post_spec (ok ids) = ok (
      record {
        queue = sv.facebook_queue;
        action = "post_detail";
        params = field "parse_ids" (arr (items_of ids)) end;
        keyword = "";
      }
      ∷ [])
  post_spec (err e) = err e
  post_spec Outcome.panic = Outcome.panic

  unfoldable pub specs_of : SourceType → TargetType → CrawlTarget → Outcome Err (List DispatchSpec)
  unfolding keyword_specs resolve_facebook_page_targets resolve_tiktok_profile_targets
      parse_facebook_parse_ids page_spec profile_spec
  specs_of tiktok keyword t = keyword_specs sv.tiktok_queue tiktok_params t.values
  specs_of facebook keyword t = keyword_specs sv.facebook_queue facebook_params t.values
  specs_of youtube keyword t = keyword_specs sv.youtube_queue youtube_params t.values
  specs_of facebook profile t = page_specs (resolve_facebook_page_targets t)
  specs_of tiktok profile t = profile_specs (resolve_tiktok_profile_targets t)
  specs_of facebook post_url t = post_spec (parse_facebook_parse_ids t)
  specs_of _ _ t = err unsupported_dispatch_mapping

  unfoldable pub build_dispatch_specs : DataSource → CrawlTarget → Outcome Err (List DispatchSpec)
  unfolding specs_of
  build_dispatch_specs s t = specs_of s.source_type t.target_type t
