-- ===== src/Uap/Lines.antt =====
-- The JSON that helpers_common.go writes: marshalUAPRecord, and what mergeRawMetadata says of the
-- parts and of the publication of a batch.
use Prim.Native.String.{◌++◌}
use ingest_srv.Shared.{
  ℕ, suc, String, Bool, Option, none, some, List, [], ◌∷◌, length, trim_space, decimal, ℤ, pos,
  negsuc,
}
use ingest_srv.Json.{Json, Items, null, bool, num, str, arr, obj, nil, cons, end, field}
use ingest_srv.Model.{
  UapType, UapIdentity, UapHierarchy, UapContent, UapAuthor, UapEngagement, UapMedia, UapTemporal,
  UapRecord, post, comment, reply,
}
use ingest_srv.Uap.Types.{ArtifactPart, PublishStats}

abbrev pub chunk_size : ℕ
chunk_size = 20

abbrev pub int_text : ℤ → String
int_text (pos n) = decimal n
int_text (negsuc n) = "-" ++ decimal (suc n)

abbrev pub int_json : Option ℤ → Json
int_json none = null
int_json (some n) = num (int_text n)

abbrev pub nat_json : ℕ → Json
nat_json n = num (decimal n)

abbrev pub bool_json : Option Bool → Json
bool_json none = null
bool_json (some b) = bool b

abbrev pub text_json : Option String → Json
text_json none = null
text_json (some s) = str s

abbrev pub text_items : List String → Items
text_items [] = nil
text_items (s ∷ ss) = cons (str s) (text_items ss)

-- A nil slice is marshalled as null.
abbrev pub texts_json : List String → Json
texts_json [] = null
texts_json (s ∷ ss) = arr (text_items (s ∷ ss))

abbrev pub type_text : UapType → String
type_text post = "POST"
type_text comment = "COMMENT"
type_text reply = "REPLY"

unfoldable pub media_json : UapMedia → Json
unfolding decimal
media_json m = obj (
    field "type" (str m.kind) (
      field "url" (str m.url) (
        field "download_url" (str m.download_url) (
          field "duration" (int_json m.duration) (
            field "thumbnail" (str m.thumbnail)
              (field "width" (int_json m.width) (field "height" (int_json m.height) end)))))))

abbrev pub media_items : List UapMedia → Items
media_items [] = nil
media_items (m ∷ ms) = cons (media_json m) (media_items ms)

abbrev pub identity_json : UapIdentity → Json
identity_json i = obj (
    field "uap_id" (str i.uap_id) (
      field "origin_id" (str i.origin_id) (
        field "uap_type" (str (type_text i.uap_type)) (
          field "platform" (str i.platform) (
            field "url" (str i.url)
              (field "task_id" (str i.task_id) (field "project_id" (str i.project_id) end)))))))

abbrev pub hierarchy_json : UapHierarchy → Json
hierarchy_json h = obj (
    field "parent_id" (text_json h.parent_id)
      (field "root_id" (str h.root_id) (field "depth" (nat_json h.depth) end)))

abbrev pub content_json : UapContent → Json
content_json c = obj (
    field "text" (str c.text) (
      field "title" (str c.title) (
        field "subtitle" (str c.subtitle) (
          field "hashtags" (texts_json c.hashtags) (
            field "keywords" (texts_json c.keywords)
              (field "language" (str c.language) (field "links" (texts_json c.links) end)))))))

abbrev pub author_json : UapAuthor → Json
author_json a = obj (
    field "id" (str a.id) (
      field "username" (str a.username) (
        field "nickname" (str a.nickname) (
          field "avatar" (str a.avatar) (
            field "profile_url" (str a.profile_url)
              (field "is_verified" (bool_json a.is_verified) end))))))

abbrev pub engagement_json : UapEngagement → Json
engagement_json e = obj (
    field "likes" (int_json e.likes) (
      field "comments_count" (int_json e.comments_count) (
        field "shares" (int_json e.shares) (
          field "views" (int_json e.views) (
            field "saves" (int_json e.saves) (field "reply_count" (int_json e.reply_count) end))))))

abbrev pub temporal_json : UapTemporal → Json
temporal_json t = obj (
    field "posted_at" (str t.posted_at)
      (field "updated_at" (str t.updated_at) (field "ingested_at" (str t.ingested_at) end)))

unfoldable pub record_json : UapRecord → Json
unfolding trim_space media_json decimal
record_json r = obj (
    field "identity" (identity_json r.identity) (
      field "hierarchy" (hierarchy_json r.hierarchy) (
        field "content" (content_json r.content) (
          field "author" (author_json r.author) (
            field "engagement" (engagement_json r.engagement) (
              field "media" (arr (media_items r.media)) (
                field "temporal" (temporal_json r.temporal) (
                  field "domain_type_code" (str (trim_space r.domain_type_code)) (
                    field "crawl_keyword" (str (trim_space r.crawl_keyword))
                      (field "platform_meta" (obj r.platform_meta) end))))))))))

abbrev pub part_items : List ArtifactPart → Items
part_items [] = nil
part_items (p ∷ ps) =
    cons
      (obj (
        field "part_no" (nat_json p.part_no) (
          field "storage_bucket" (str p.storage_bucket) (
            field "storage_path" (str p.storage_path)
              (field "record_count" (nat_json p.record_count) end)))))
      (part_items ps)

unfoldable pub artifacts_json : List ArtifactPart → ℕ → Json
unfolding decimal
artifacts_json parts total = obj (
    field "version" (str "v1") (
      field "chunk_size" (nat_json chunk_size) (
        field "total_records" (nat_json total) (
          field "total_parts" (nat_json (length parts)) (
            field "content_type" (str "application/x-ndjson")
              (field "parts" (arr (part_items parts)) end))))))

unfoldable pub stats_json : PublishStats → Json
unfolding trim_space decimal
stats_json s = obj (
    field "topic" (str (trim_space s.topic)) (
      field "attempted_count" (nat_json s.attempted_count) (
        field "success_count" (nat_json s.success_count) (
          field "failed_count" (nat_json s.failed_count)
            (field "last_error" (str (trim_space s.last_error)) end)))))
