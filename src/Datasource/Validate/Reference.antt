-- ===== src/Datasource/Validate/Reference.antt =====
-- normalizeTargetValues does in one pass what trimming, dropping the blank values and dropping
-- repetitions do one after the other.
use ingest_srv.Shared.{
  String, Bool, true, false, List, [], ◌∷◌, ◌≡◌, refl, ap, ◌∙◌, ◌==◌, ◌&&◌, not, eq_iff, arith, inl,
  inr, Bool-cases, trim_space, map, select, if◌then◌else◌, sym,
}
use ingest_srv.Datasource.Validate.{normalize_from, normalize_target_values, contains}

-- The values, each without the white space around it, that are not empty.
abbrev pub texts : List String → List String
texts values = select (λ v. not (v == "")) (map trim_space values)

-- Each value where it stands first.
abbrev pub firsts : List String → List String
firsts [] = []
firsts (v ∷ vs) = v ∷ select (λ u. not (u == v)) (firsts vs)

select-same :
    (p q : String → Bool)
    → ((v : String) → p v ≡ q v)
    → (vs : List String) → select p vs ≡ select q vs
select-same p q same [] = refl
select-same p q same (v ∷ vs) = ground (arith, same v, select-same p q same vs)

select-select :
    (p q : String → Bool) (vs : List String) → select p (select q vs) ≡ select (λ v. q v && p v) vs
select-select p q [] = refl
select-select p q (v ∷ vs) = ground (arith, select-select p q vs)

abbrev unseen : List String → List String → List String
unseen seen vs = select (λ v. not (contains v seen)) vs

select_all : (vs : List String) → unseen [] vs ≡ vs
select_all [] = refl
select_all (v ∷ vs) = ground (arith, select_all vs)

no_new :
    (u v : String) (seen : List String)
    → contains v seen ≡ true
    → (not (u == v) && not (contains u seen)) ≡ not (contains u seen)
no_new u v seen there = elim (Bool-cases (u == v)) [
  | inl same ↦ rw ((eq_iff u v).0 same, there) (ground arith)
  | inr other ↦ rw other refl
]

-- What a value that was seen keeps out, the set of seen values keeps out too.
seen_before :
    (v : String) (seen vs : List String)
    → contains v seen ≡ true
    → unseen seen (select (λ u. not (u == v)) vs) ≡ unseen seen vs
seen_before v seen vs there = select-select _ _ vs ∙ select-same _ _ (λ u. no_new u v seen there) vs

seen_too :
    (u v : String) (seen : List String)
    → (not (u == v) && not (contains u seen)) ≡ not (contains u (v ∷ seen))
seen_too u v seen = ground (arith, eq_iff u v, eq_iff v u)

seen_now :
    (v : String) (seen vs : List String)
    → unseen seen (select (λ u. not (u == v)) vs) ≡ unseen (v ∷ seen) vs
seen_now v seen vs = select-select _ _ vs ∙ select-same _ _ (λ u. seen_too u v seen) vs

all_kept : (seen values : List String) → normalize_from false seen values ≡ texts values
unfolding normalize_from
all_kept seen [] = refl
all_kept seen (v ∷ vs) = elim (Bool-cases (trim_space v == "")) [
  | inl blank ↦ rw blank (all_kept seen vs)
  | inr ink ↦ rw ink (ap (λ us. trim_space v ∷ us) (all_kept (trim_space v ∷ seen) vs))
]

first_kept :
    (seen values : List String)
    → normalize_from true seen values ≡ unseen seen (firsts (texts values))
unfolding normalize_from
first_kept seen [] = refl
first_kept seen (v ∷ vs) = elim (Bool-cases (trim_space v == "")) [
  | inl blank ↦ rw blank (first_kept seen vs)
  | inr ink ↦ elim (Bool-cases (contains (trim_space v) seen)) [
    | inl there ↦
        rw (ink, there)
          (first_kept seen vs ∙ sym (seen_before (trim_space v) seen (firsts (texts vs)) there))
    | inr new ↦
        rw (ink, new)
          (ap (λ us. trim_space v ∷ us)
            (first_kept (trim_space v ∷ seen) vs
              ∙ sym (seen_now (trim_space v) seen (firsts (texts vs)))))
  ]
]

-- normalizeTargetValues returns the values without the white space around them, in their order,
-- without the empty ones, and, if it drops duplicates, without those that equal an earlier one.
pub normalize_target_values-texts :
    (values : List String) (dedupe : Bool)
    → normalize_target_values values dedupe
      ≡ (if dedupe then firsts (texts values) else texts values)
unfolding normalize_target_values
normalize_target_values-texts values true = first_kept [] values ∙ select_all _
normalize_target_values-texts values false = all_kept [] values
