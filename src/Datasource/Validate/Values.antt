-- ===== src/Datasource/Validate/Values.antt =====
-- The values of a crawl target after normalizeTargetValues and prepareTargetValues.
use ingest_srv.Shared.{
  String, Bool, true, false, List, [], ◌∷◌, ◌≡◌, ◌≢◌, ◌≤◌, refl, ◌==◌, ◌&&◌, ◌||◌, eq_iff, arith,
  inl, inr, Option, subst, All, count, Bool-cases, trim_space, trim_space_idem, if◌then◌else◌,
  is_empty, none, some,
}
use ingest_srv.Model.{TargetType, is_keyword}
use ingest_srv.Runtime.{Env, ok, err}
use ingest_srv.Datasource.Types.{Err, target_values_required}
use ingest_srv.Datasource.Validate.{
  normalize_from, normalize_target_values, contains, prepare_target_values,
  validate_target_url_values, is_url, as_outcome,
}

-- A text without white space around it, and not the empty one.
abbrev pub IsTrimmed : String → Type 0
IsTrimmed v = (v ≢ "") × (trim_space v ≡ v)

abbrev skips : Bool → List String → String → Bool
skips dedupe seen trimmed = trimmed == "" || (dedupe && contains trimmed seen)

module _ (dedupe : Bool) where
  put-nonblank : (seen : List String) (t : String) → skips dedupe seen t ≡ false → t ≢ ""
  put-nonblank seen t put same = ground (arith, eq_iff t "")

  from-IsTrimmed : (values seen : List String) → All IsTrimmed (normalize_from dedupe seen values)
  unfolding normalize_from
  from-IsTrimmed [] seen = tt
  from-IsTrimmed (value ∷ values) seen = elim (Bool-cases (skips dedupe seen (trim_space value))) [
    | inl skip ↦ rw skip (from-IsTrimmed values seen)
    | inr put ↦ rw put (
      (put-nonblank seen _ put, trim_space_idem value),
      from-IsTrimmed values (trim_space value ∷ seen),
    )
  ]

from-distinct :
    (values seen : List String) (v : String)
    → count (λ x. x == v) (normalize_from true seen values) ≤ (if contains v seen then 0 else 1)
unfolding normalize_from
from-distinct [] seen v = ground arith
from-distinct (value ∷ values) seen v = elim (Bool-cases (skips true seen (trim_space value))) [
  | inl skip ↦ rw skip (from-distinct values seen v)
  | inr put ↦ rw put (
      ground
        (arith, put, from-distinct values (trim_space value ∷ seen) v, eq_iff (trim_space value) v))
]

-- Every value that normalizeTargetValues returns is without white space around it and not empty.
pub normalize_target_values-IsTrimmed :
    (values : List String) (dedupe : Bool) → All IsTrimmed (normalize_target_values values dedupe)
unfolding normalize_target_values
normalize_target_values-IsTrimmed values dedupe = from-IsTrimmed dedupe values []

-- With deduplication normalizeTargetValues returns no value more than once.
pub normalize_target_values-distinct :
    (values : List String) (v : String)
    → count (λ x. x == v) (normalize_target_values values true) ≤ 1
unfolding normalize_target_values
normalize_target_values-distinct values v = from-distinct values [] v

module _ (env : Env) where
  url_of :
      (v : String) (vs : List String)
      → validate_target_url_values env (v ∷ vs) ≡ none
      → (is_url env (env.request_uri v) ≡ true) × (validate_target_url_values env vs ≡ none)
  unfolding validate_target_url_values
  url_of v vs h = ground arith

  urls_All :
      (values : List String)
      → validate_target_url_values env values ≡ none
      → All (λ v. is_url env (env.request_uri v) ≡ true) values
  unfolding validate_target_url_values
  urls_All [] h = tt
  urls_All (v ∷ vs) h = let (url, later) = url_of v vs h in (url, urls_All vs later)

  prepared :
      (vs : List String) (o : Option Err) {out : List String}
      → as_outcome env vs o ≡ ok out
      → (o ≡ none) × (vs ≡ out)
  prepared vs none h = (refl, cc)
  prepared vs (some e) h = cc

  accepted :
      (vs : List String) (kw : Bool) {out : List String}
      → (if is_empty vs
          then err target_values_required
          else as_outcome env vs (if kw then none else validate_target_url_values env vs))
        ≡ ok out
      → (vs ≡ out) × (vs ≢ []) × (kw ≡ false → validate_target_url_values env vs ≡ none)
  accepted [] kw h = cc
  accepted (v ∷ vs) true h = ((prepared (v ∷ vs) none h).1, λ p. cc, λ p. cc)
  accepted (v ∷ vs) false h =
      let (valid, same) = prepared (v ∷ vs) _ h in (same, λ p. cc, λ p. valid)

  -- What prepareTargetValues returns is not empty, each value is trimmed and not blank, and unless
  -- the target is a keyword group each is a URL with a scheme and a host.
  pub prepare_target_values-ok :
      (target_type : TargetType) (values : List String) {out : List String}
      → prepare_target_values env target_type values ≡ ok out
      → (out ≢ [])
        × All IsTrimmed out
        × (is_keyword target_type ≡ false → All (λ v. is_url env (env.request_uri v) ≡ true) out)
  unfolding prepare_target_values
  prepare_target_values-ok target_type values h =
      let vs = normalize_target_values values (is_keyword target_type) in
      let (same, full, urls) = accepted vs (is_keyword target_type) h in
      let clean = normalize_target_values-IsTrimmed values (is_keyword target_type) in
      (
        subst (λ out. out ≢ []) same full,
        subst (All IsTrimmed) same clean,
        λ other.
            subst (All (λ v. is_url env (env.request_uri v) ≡ true)) same
              (urls_All vs (urls other)),
      )
