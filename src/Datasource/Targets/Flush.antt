-- ===== src/Datasource/Targets/Flush.antt =====
-- A flushed target: it is deleted in the sense that no listing and no count has it.
use ingest_srv.Shared.{
  ℕ, String, Bool, false, Option, none, some, ◌≡◌, ◌∙◌, refl, subst, arith, inl, inr, ◌⊎◌, ◌≢◌,
  Bool-cases, eq_iff, ◌==◌,
}
use ingest_srv.Json.{Json, Fields, bool, num, arr, str, obj, get, put, get-put, null}
use ingest_srv.Model.{CrawlTarget, TargetType}
use ingest_srv.Runtime.{Env, Outcome, ok, panic}
use ingest_srv.Repository.Targets.{shown, shown_meta, listed, counted}
use ingest_srv.Datasource.Types.{Err}
use ingest_srv.Datasource.Targets.{
  flushed_fields, target_flushed_platform_meta, smap_of, decoded_meta, flush, metadata,
}

flushed-hidden :
    (meta : Fields) (now : String) → shown_meta (some (obj (flushed_fields meta now))) ≡ false
unfolding shown_meta flushed_fields
flushed-hidden meta now = rw (get-put meta "smap" "smap" _) (
    rw
      (get-put (put (smap_of (get meta "smap")) "deleted_at" (str now)) "visibility" "visibility"
        (str "flushed"))
      refl)

-- The keys beside `smap` keep their values.
flushed-keeps :
    (meta : Fields) (now key : String)
    → key == "smap" ≡ false
    → get (flushed_fields meta now) key ≡ get meta key
unfolding flushed_fields
flushed-keeps meta now key other =
    get-put meta "smap" key _ ∙ ground (arith, eq_iff key "smap", eq_iff "smap" key)

flush_text :
    (env : Env) (now : ℕ) {o : Outcome Err Fields} {meta : Fields} {text : String}
    → o ≡ ok meta
    → flush env now o ≡ ok text
    → text ≡ env.marshal (obj (flushed_fields meta (env.rfc3339 now)))
flush_text env now {o} {meta} {text} has h =
    let k = subst (λ x. flush env now x ≡ ok text) has h in cc

-- json.Unmarshal reads back the document that json.Marshal wrote.
abbrev pub ReadsBack : Env → Json → Type 0
ReadsBack env j = env.unmarshal (env.marshal j) ≡ some j

module _ (env : Env) (t row : CrawlTarget) (now : ℕ) (meta : Fields) where
  flushed_shown :
      metadata env t ≡ ok meta
      → ReadsBack env (obj (flushed_fields meta (env.rfc3339 now)))
      → target_flushed_platform_meta env t now ≡ ok row.platform_meta
      → shown env row ≡ false
  unfolding shown target_flushed_platform_meta
  flushed_shown has back h =
      let text = flush_text env now has h in rw (text, back) (flushed-hidden meta (env.rfc3339 now))

  -- If a target's metadata can be decoded, and json.Unmarshal reads back the flushed document, then a
  -- row with the platform_meta that targetFlushedPlatformMeta returns is in no listing of targets and
  -- in no count of active targets, whatever its other columns are.
  pub flushed-excluded :
      metadata env t ≡ ok meta
      → ReadsBack env (obj (flushed_fields meta (env.rfc3339 now)))
      → target_flushed_platform_meta env t now ≡ ok row.platform_meta
      → (source_id : String) (target_type : Option TargetType) (is_active : Option Bool)
      → (listed env source_id target_type is_active row ≡ false)
        × (counted env source_id row ≡ false)
  flushed-excluded has back done source_id target_type is_active =
      let unseen = flushed_shown has back done in (ground arith, ground arith)

flush_ends :
    (env : Env) (now : ℕ) (o : Option Json)
    → ((flush env now (decoded_meta env o) ≡ panic) × (o ≡ some null))
      ⊎ ((o ≢ some null) × (text : String) × (flush env now (decoded_meta env o) ≡ ok text))
flush_ends env now none = inr ((λ p. cc), _, refl)
flush_ends env now (some null) = inl (refl, refl)
flush_ends env now (some (obj fs)) = inr ((λ p. cc), _, refl)
flush_ends env now (some (bool b)) = inr ((λ p. cc), _, refl)
flush_ends env now (some (num n)) = inr ((λ p. cc), _, refl)
flush_ends env now (some (str s)) = inr ((λ p. cc), _, refl)
flush_ends env now (some (arr xs)) = inr ((λ p. cc), _, refl)

-- The metadata are there and decode to the document null.
abbrev pub IsNull : Env → CrawlTarget → Type 0
IsNull env t = (t.platform_meta ≢ "") × (env.unmarshal t.platform_meta ≡ some null)

-- targetFlushedPlatformMeta panics on metadata that are not empty and decode to the JSON `null`, and
-- only on these; on all others it returns a text.
pub flushed_panic-IsNull :
    (env : Env) (t : CrawlTarget) (now : ℕ)
    → ((target_flushed_platform_meta env t now ≡ panic) × IsNull env t)
      ⊎ ((¬ IsNull env t) × (text : String) × (target_flushed_platform_meta env t now ≡ ok text))
unfolding target_flushed_platform_meta
flushed_panic-IsNull env t now = elim (Bool-cases (t.platform_meta == "")) [
  | inl empty ↦
      let none_given : t.platform_meta ≡ "" = (eq_iff t.platform_meta "").0 empty in
      rw (target_flushed_platform_meta, empty) (inr ((λ p. p.0 none_given), _, refl))
  | inr given ↦
      rw (target_flushed_platform_meta, given)
        (elim (flush_ends env now (env.unmarshal t.platform_meta)) [
          | inl (stops, is_null) ↦
              inl (stops, ((λ p. ground (arith, eq_iff t.platform_meta "")), is_null))
          | inr (other, text, goes) ↦ inr ((λ p. other p.1), text, goes)
        ])
]
