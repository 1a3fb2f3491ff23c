-- ===== src/Execution/Specs/Tasks.antt =====
-- The tasks of a target: how many there are, and to which queue they go.
use ingest_srv.Shared.{
  ℕ, suc, ◌<◌, String, Bool, true, false, Option, none, some, List, [], ◌∷◌, ◌≡◌, ◌≢◌, ◌==◌, refl,
  ap, ◌∙◌, arith, count, length, length-map, map, All, not, trim_space, if◌then◌else◌,
}
use ingest_srv.Json.{Fields}
use ingest_srv.Model.{
  CrawlTarget, DataSource, SourceType, TargetType, tiktok, facebook, youtube, file_upload, webhook,
  keyword, profile, post_url,
}
use ingest_srv.Runtime.{Outcome, ok, err, panic}
use ingest_srv.Execution.Services.{Services}
use ingest_srv.Execution.Types.{Err, DispatchSpec}
use ingest_srv.Execution.Specs.{
  extract_keywords, keyword_specs, refuse_empty, FacebookPage, TikTokProfile, prepend, pages_from,
  profiles_from, resolve_facebook_page_targets, resolve_tiktok_profile_targets,
  parse_facebook_parse_ids, page_spec, profile_spec, page_specs, profile_specs, post_spec, specs_of,
  build_dispatch_specs, tiktok_params, facebook_params, youtube_params, not_empty, tail_of,
}

abbrev pub queue_of : Services → SourceType → String
queue_of sv tiktok = sv.tiktok_queue
queue_of sv facebook = sv.facebook_queue
queue_of sv youtube = sv.youtube_queue
queue_of sv file_upload = ""
queue_of sv webhook = ""

-- One task for each keyword that is not blank, one for each profile, one for all posts.
abbrev pub task_number : TargetType → List String → ℕ
task_number keyword values = count (λ v. not (trim_space v == "")) values
task_number profile values = length values
task_number post_url values = 1

pub data Builds (sv : Services) (source : SourceType) (target : TargetType) (values : List String)
    (r : Outcome Err (List DispatchSpec)) : Type 0 where
  refuses : (e : Err) → r ≡ err e → Builds sv source target values r
  builds :
      (specs : List DispatchSpec)
      → r ≡ ok specs
      → 0 < length specs
      → length specs ≡ task_number target values
      → All (λ s. s.queue ≡ queue_of sv source) specs
      → Builds sv source target values r

length-extract_keywords :
    (values : List String)
    → length (extract_keywords values) ≡ count (λ v. not (trim_space v == "")) values
unfolding extract_keywords
length-extract_keywords [] = refl
length-extract_keywords (v ∷ vs) = ground (arith, length-extract_keywords vs)

All-map {ℓ} :
    {A : Type ℓ} (q : String) (f : A → DispatchSpec)
    → ((x : A) → (f x).queue ≡ q)
    → (xs : List A) → All (λ s. s.queue ≡ q) (map f xs)
All-map q f h [] = tt
All-map q f h (x ∷ xs) = (h x, All-map q f h xs)

-- A list of that length, if there is one.
abbrev Sized {ℓ} : {A : Type ℓ} → Option (List A) → ℕ → Type 0
Sized none n = Unit
Sized (some xs) n = length xs ≡ n

module _ {ℓ} {A : Type ℓ} (b : Bool) (n : ℕ) (x : A) (o : Option (List A)) (h : Sized o n) where
  prepend-Sized : Sized (prepend x o) (suc n)
  prepend-Sized =
      elim o as (λ p. Sized p n → Sized (prepend x p) (suc n)) [
        | none ↦ λ _. tt
        | some xs ↦ λ e. ap suc e
      ]
        h

  if-Sized : Sized (if b then prepend x o else none) (suc n)
  if-Sized = elim b as (λ c. Sized (if c then prepend x o else none) (suc n)) [
    | true ↦ prepend-Sized
    | false ↦ tt
  ]

  unless-Sized : Sized (if b then none else prepend x o) (suc n)
  unless-Sized = elim b as (λ c. Sized (if c then none else prepend x o) (suc n)) [
    | true ↦ tt
    | false ↦ prepend-Sized
  ]

module _ (sv : Services) where
  nonempty :
      (source : SourceType) (target : TargetType) (values : List String) (e : Err)
      (specs : List DispatchSpec)
      → length specs ≡ task_number target values
      → All (λ s. s.queue ≡ queue_of sv source) specs
      → Builds sv source target values (refuse_empty e specs)
  nonempty source target values e [] n all = refuses e refl
  nonempty source target values e (s ∷ ss) n all = builds (s ∷ ss) refl (omega arith) n all

  keyword-Builds :
      (source : SourceType) (params : String → Fields) (values : List String)
      → Builds sv source keyword values (keyword_specs (queue_of sv source) params values)
  unfolding keyword_specs
  keyword-Builds source params values =
      nonempty source keyword values _ _
        (length-map _ (extract_keywords values) ∙ length-extract_keywords values)
        (All-map (queue_of sv source) _ (λ k. refl) (extract_keywords values))

  pages-Sized :
      (ids : List String) (fallback : String) (raws : List String)
      → Sized (pages_from sv ids fallback raws) (length raws)
  unfolding pages_from
  pages-Sized ids fallback [] = refl
  pages-Sized ids fallback (raw ∷ raws) =
      if-Sized _ (length raws) _ _ (pages-Sized (tail_of ids) fallback raws)

  profiles-Sized :
      (usernames sec_uids : List String) (username sec_uid : String) (raws : List String)
      → Sized (profiles_from sv usernames sec_uids username sec_uid raws) (length raws)
  unfolding profiles_from
  profiles-Sized usernames sec_uids username sec_uid [] = refl
  profiles-Sized usernames sec_uids username sec_uid (raw ∷ raws) =
      unless-Sized _ (length raws) _ _
        (profiles-Sized (tail_of usernames) (tail_of sec_uids) username sec_uid raws)

  page-Builds :
      (values : List String) (r : Option (List FacebookPage))
      → Sized r (length values)
      → Builds sv facebook profile values (page_specs sv r)
  unfolding page_spec
  page-Builds values none h = refuses _ refl
  page-Builds values (some ps) h =
      nonempty facebook profile values _ _ (length-map _ ps ∙ h)
        (All-map sv.facebook_queue _ (λ p. refl) ps)

  profile-Builds :
      (values : List String) (r : Option (List TikTokProfile))
      → Sized r (length values)
      → Builds sv tiktok profile values (profile_specs sv r)
  unfolding profile_spec
  profile-Builds values none h = refuses _ refl
  profile-Builds values (some ps) h =
      nonempty tiktok profile values _ _ (length-map _ ps ∙ h)
        (All-map sv.tiktok_queue _ (λ p. refl) ps)

  post-Builds :
      (values : List String) (r : Outcome Err (List String))
      → r ≢ panic
      → Builds sv facebook post_url values (post_spec sv r)
  post-Builds values (ok ids) calm = builds _ refl (omega arith) refl (refl, tt)
  post-Builds values (err e) calm = refuses e refl
  post-Builds values panic calm = absurd (calm refl)

  not_empty-calm : (o : Option (List String)) → not_empty o ≢ panic
  not_empty-calm none p = cc
  not_empty-calm (some []) p = cc
  not_empty-calm (some (id ∷ ids)) p = cc

  parse_ids-calm : (t : CrawlTarget) → parse_facebook_parse_ids sv t ≢ panic
  unfolding parse_facebook_parse_ids
  parse_ids-calm t = not_empty-calm _

  specs-Builds :
      (source : SourceType) (target : TargetType) (t : CrawlTarget)
      → Builds sv source target t.values (specs_of sv source target t)
  unfolding specs_of resolve_facebook_page_targets resolve_tiktok_profile_targets
  specs-Builds tiktok keyword t = keyword-Builds tiktok tiktok_params t.values
  specs-Builds facebook keyword t = keyword-Builds facebook facebook_params t.values
  specs-Builds youtube keyword t = keyword-Builds youtube youtube_params t.values
  specs-Builds facebook profile t = page-Builds t.values _ (pages-Sized _ _ t.values)
  specs-Builds tiktok profile t = profile-Builds t.values _ (profiles-Sized _ _ _ _ t.values)
  specs-Builds facebook post_url t = post-Builds t.values _ (parse_ids-calm t)
  specs-Builds tiktok post_url t = refuses _ refl
  specs-Builds youtube profile t = refuses _ refl
  specs-Builds youtube post_url t = refuses _ refl
  specs-Builds file_upload target t = refuses _ refl
  specs-Builds webhook target t = refuses _ refl

  -- buildDispatchSpecs refuses a target, or it returns at least one task, all for the queue of the
  -- data source's platform: one for each keyword that is not blank, one for each profile, or one for
  -- all posts.
  pub build_dispatch_specs-Builds :
      (s : DataSource) (t : CrawlTarget)
      → Builds sv s.source_type t.target_type t.values (build_dispatch_specs sv s t)
  unfolding build_dispatch_specs
  build_dispatch_specs-Builds s t = specs-Builds s.source_type t.target_type t

  built-calm :
      {source : SourceType} {target : TargetType} {values : List String}
      {r : Outcome Err (List DispatchSpec)}
      → Builds sv source target values r
      → r ≢ panic
  built-calm (refuses e is) p = cc
  built-calm (builds specs is _ _ _) p = cc

  pub build_dispatch_specs-calm :
      (s : DataSource) (t : CrawlTarget) → build_dispatch_specs sv s t ≢ panic
  build_dispatch_specs-calm s t = built-calm (build_dispatch_specs-Builds s t)
