-- ===== src/Model/Uap.antt =====
-- internal/uap/types.go: the record that every platform's items are turned into. The slices that the
-- parsers build are nil where they are empty, so an empty list is the nil slice.
use ingest_srv.Shared.{ℕ, String, Bool, Option, List, ℤ}
use ingest_srv.Json.{Fields}

pub data UapType : Type 0 where
  post comment reply : UapType

pub record UapIdentity : Type 0 where
  pub uap_id : String
  pub origin_id : String
  pub uap_type : UapType
  pub platform : String
  pub url : String
  pub task_id : String
  pub project_id : String

pub record UapHierarchy : Type 0 where
  pub parent_id : Option String
  pub root_id : String
  pub depth : ℕ

pub record UapContent : Type 0 where
  pub text : String
  pub title : String
  pub subtitle : String
  pub hashtags : List String
  pub keywords : List String
  pub language : String
  pub links : List String

pub record UapAuthor : Type 0 where
  pub id : String
  pub username : String
  pub nickname : String
  pub avatar : String
  pub profile_url : String
  pub is_verified : Option Bool

pub record UapEngagement : Type 0 where
  pub likes : Option ℤ
  pub comments_count : Option ℤ
  pub shares : Option ℤ
  pub views : Option ℤ
  pub saves : Option ℤ
  pub reply_count : Option ℤ

pub record UapMedia : Type 0 where
  pub kind : String
  pub url : String
  pub download_url : String
  pub duration : Option ℤ
  pub thumbnail : String
  pub width : Option ℤ
  pub height : Option ℤ

pub record UapTemporal : Type 0 where
  pub posted_at : String
  pub updated_at : String
  pub ingested_at : String

pub record UapRecord : Type 0 where
  pub identity : UapIdentity
  pub hierarchy : UapHierarchy
  pub content : UapContent
  pub author : UapAuthor
  pub engagement : UapEngagement
  pub media : List UapMedia
  pub temporal : UapTemporal
  pub domain_type_code : String
  pub crawl_keyword : String
  pub platform_meta : Fields

-- An object in the storage: its bucket, its path and its body.
pub record StoredObject : Type 0 where
  pub bucket : String
  pub path : String
  pub body : String
