-- ===== src/Dryrun/Sample/Bounds.antt =====
-- How many items buildSuccessUpdate keeps of an artifact.
use ingest_srv.Shared.{
  ℕ, zero, suc, String, Option, none, some, List, ◌≡◌, ◌≤◌, ◌<◌, ◌⊎◌, sym, subst, refl, inl, inr,
  arith, ℤ, pos, negsuc, is_positive, Bool-cases, if◌then◌else◌, ◌==◌, ◌||◌,
}
use ingest_srv.Json.{Json, Items, Fields, null, bool, num, str, arr, obj, nil, cons, end, get}
use ingest_srv.Runtime.{Env}
use ingest_srv.Dryrun.Sample.{
  Warning, count_items, take_items, truncate_items, collection, collection_keys, object_of,
  fields_of, of_object, of_payload, sample_limit, build_sample_payload, build_success_update,
  parse_int, marshal_json, marshal_items, Sample, sample_of, of_artifact,
}

take-le : (n : ℕ) (xs : Items) → count_items (take_items n xs) ≤ n
take-le zero xs = omega arith
take-le (suc n) nil = omega arith
take-le (suc n) (cons x xs) = let h = take-le n xs in omega arith

truncated : (n : ℕ) (xs : Items) → 0 < n → count_items (truncate_items (pos n) xs) ≤ n
unfolding truncate_items
truncated zero xs h = absurd (omega arith)
truncated (suc n) xs h = let k = take-le (suc n) xs in ground arith

-- The parameters that an artifact states, if it can be read.
abbrev pub params_of : Option Fields → Fields
params_of none = end
params_of (some artifact) = fields_of (get artifact "params")

abbrev or_ten : ℤ → ℕ
or_ten (pos (suc k)) = suc k
or_ten _ = 10

-- The limit that the parameters state, if it is a number whose integer is positive, and otherwise 10.
abbrev pub limit_of : (String → ℤ) → Option Json → ℕ
limit_of integer (some (num n)) = or_ten (integer n)
limit_of integer _ = 10

or_ten_positive : (z : ℤ) → 0 < or_ten z
or_ten_positive (pos zero) = omega arith
or_ten_positive (pos (suc k)) = omega arith
or_ten_positive (negsuc k) = omega arith

or_ten_lem : (z : ℤ) → (if is_positive z then z else pos 10) ≡ pos (or_ten z)
or_ten_lem (pos zero) = refl
or_ten_lem (pos (suc k)) = ground arith
or_ten_lem (negsuc k) = refl

-- The text of a sample and its count: no text or a null for no items, or the array of so many items,
-- which are within the limit.
pub data Kept (env : Env) (limit n : ℕ) (text : String) : Type 0 where
  no_items : n ≡ 0 → (text ≡ "") ⊎ (text ≡ env.marshal null) → Kept env limit n text
  items :
      (xs : Items)
      → text ≡ env.marshal (arr xs)
      → count_items xs ≡ n
      → n ≤ limit
      → Kept env limit n text

module _ (env : Env) (integer : String → ℤ) (decode_warnings : String → List Warning) where
  abbrev KeptIn : ℕ → Sample → Type 0
  KeptIn limit s = Kept env limit s.sample_count s.sample_data

  sampled :
      (xs : Items) (limit : ℕ) (total : Option ℤ)
      → count_items xs ≤ limit
      → KeptIn limit (sample_of env integer decode_warnings xs total)
  sampled nil limit total h = no_items refl (inl refl)
  sampled (cons x xs) limit total h = items (cons x xs) refl refl h

  marshalled :
      (xs : Items) (limit : ℕ)
      → count_items xs ≤ limit
      → Kept env limit (count_items xs) (marshal_items env integer decode_warnings xs)
  marshalled nil limit h = no_items refl (inr refl)
  marshalled (cons x xs) limit h = items (cons x xs) refl refl h

  alone : (d : Json) (limit : ℕ) → 0 < limit → Kept env limit 1 (env.marshal (arr (cons d nil)))
  alone d limit h = items (cons d nil) refl (omega arith) (omega (arith, h))

  object-Kept :
      (fs : Fields) (found : Option Items) (limit : ℕ) (total : Option ℤ)
      → 0 < limit
      → KeptIn limit (of_object env integer decode_warnings fs found (pos limit) total)
  object-Kept fs none limit total h = alone (obj fs) limit h
  object-Kept fs (some xs) limit total h =
      sampled (truncate_items (pos limit) xs) limit _ (truncated limit xs h)

  of_payload-Kept :
      (d : Option Json) (limit : ℕ) (total : Option ℤ)
      → 0 < limit
      → KeptIn limit (of_payload env integer decode_warnings d (pos limit) total)
  unfolding of_payload
  of_payload-Kept none limit total h = no_items refl (inl refl)
  of_payload-Kept (some null) limit total h = alone null limit h
  of_payload-Kept (some (bool b)) limit total h = alone (bool b) limit h
  of_payload-Kept (some (num n)) limit total h = alone (num n) limit h
  of_payload-Kept (some (str s)) limit total h = alone (str s) limit h
  of_payload-Kept (some (arr xs)) limit total h =
      marshalled (truncate_items (pos limit) xs) limit (truncated limit xs h)
  of_payload-Kept (some (obj fs)) limit total h =
      object-Kept fs (collection collection_keys fs) limit total h

  build_sample_payload-Kept :
      (raw : String) (limit : ℕ) (item_count : ℤ) (fallback : Option ℤ)
      → 0 < limit
      → KeptIn limit
          (build_sample_payload env integer decode_warnings raw (pos limit) item_count fallback)
  unfolding build_sample_payload
  build_sample_payload-Kept raw limit item_count fallback h =
      elim (Bool-cases (raw == "" || raw == "null")) [
        | inl blank ↦ rw blank (no_items refl (inl refl))
        | inr given ↦ rw given (of_payload-Kept (env.unmarshal raw) limit _ h)
      ]

  limit_positive : (d : Option Json) → 0 < limit_of integer d
  limit_positive none = omega arith
  limit_positive (some null) = omega arith
  limit_positive (some (bool b)) = omega arith
  limit_positive (some (num n)) = or_ten_positive (integer n)
  limit_positive (some (str s)) = omega arith
  limit_positive (some (arr xs)) = omega arith
  limit_positive (some (obj fs)) = omega arith

  stated_limit :
      (d : Option Json)
      → (if is_positive (parse_int env integer decode_warnings d)
          then parse_int env integer decode_warnings d
          else pos 10)
        ≡ pos (limit_of integer d)
  unfolding parse_int
  stated_limit none = refl
  stated_limit (some null) = refl
  stated_limit (some (bool b)) = refl
  stated_limit (some (num n)) = or_ten_lem (integer n)
  stated_limit (some (str s)) = refl
  stated_limit (some (arr xs)) = refl
  stated_limit (some (obj fs)) = refl

  sample_limit_lem :
      (params : Fields)
      → sample_limit env integer decode_warnings params
        ≡ pos (limit_of integer (get params "limit"))
  unfolding sample_limit
  sample_limit_lem params = stated_limit (get params "limit")

  artifact-Kept :
      (artifact : Option Fields) (fallback : Option ℤ)
      → let opt = of_artifact env integer decode_warnings artifact fallback in
        Kept env
          (limit_of integer (get (params_of artifact) "limit"))
          opt.sample_count
          opt.sample_data
  artifact-Kept none fallback = no_items refl (inl refl)
  artifact-Kept (some artifact) fallback =
      subst
        (λ limit. KeptIn (limit_of integer (get (params_of (some artifact)) "limit")) (
          build_sample_payload env integer decode_warnings
            (marshal_json env integer decode_warnings (get artifact "result")) limit
            (parse_int env integer decode_warnings (get artifact "item_count")) fallback))
        (sym (sample_limit_lem (params_of (some artifact))))
        (build_sample_payload-Kept _ _ _ fallback (limit_positive _))

  -- What buildSuccessUpdate keeps of an artifact is the text of an array with the items that it
  -- counts, or no text or a null where it counts none. They are never more than the positive limit
  -- that the artifact's parameters state, or than ten where they state none.
  pub build_success_update-Kept :
      (raw : String) (fallback : Option ℤ)
      → let opt = build_success_update env integer decode_warnings raw fallback in
        Kept env
          (limit_of integer (get (params_of (object_of (env.unmarshal raw))) "limit"))
          opt.sample_count
          opt.sample_data
  unfolding build_success_update
  build_success_update-Kept raw fallback = artifact-Kept (object_of (env.unmarshal raw)) fallback
