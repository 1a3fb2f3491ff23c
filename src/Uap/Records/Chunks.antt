-- ===== src/Uap/Records/Chunks.antt =====
-- chunkRecords: no record is lost, repeated or moved, and only the last chunk can be short.
use ingest_srv.Shared.{
  ℕ, zero, suc, ◌≤◌, ◌<◌, List, [], ◌∷◌, ◌++◌, ◌≡◌, refl, ap, ◌∙◌, arith, length, take,
}
use ingest_srv.Model.{UapRecord}
use ingest_srv.Uap.Lines.{chunk_size}
use ingest_srv.Uap.Records.{drop, chunks_from, chunk_records}

abbrev pub concat {ℓ} : {A : Type ℓ} → List (List A) → List A
concat [] = []
concat (c ∷ cs) = c ++ concat cs

-- Every chunk is full but the last, which has a record.
abbrev pub Full : List (List UapRecord) → Type 0
Full [] = Unit
Full (c ∷ []) = (0 < length c) × (length c ≤ chunk_size)
Full (c ∷ d ∷ cs) = (length c ≡ chunk_size) × Full (d ∷ cs)

module _ {ℓ} {A : Type ℓ} where
  take-drop : (n : ℕ) (xs : List A) → take n xs ++ drop n xs ≡ xs
  take-drop zero xs = refl
  take-drop (suc n) [] = refl
  take-drop (suc n) (x ∷ xs) = ap (λ ys. x ∷ ys) (take-drop n xs)

  length-drop : (n : ℕ) (xs : List A) → length (drop n xs) ≤ length xs
  length-drop zero xs = omega arith
  length-drop (suc n) [] = omega arith
  length-drop (suc n) (x ∷ xs) = omega (arith, length-drop n xs)

  length-take-le : (n : ℕ) (xs : List A) → length (take n xs) ≤ n
  length-take-le zero xs = omega arith
  length-take-le (suc n) [] = omega arith
  length-take-le (suc n) (x ∷ xs) = omega (arith, length-take-le n xs)

  -- What is left over shows that the part before is full.
  length-take : (n : ℕ) (xs : List A) → 0 < length (drop n xs) → length (take n xs) ≡ n
  length-take zero xs h = refl
  length-take (suc n) [] h = absurd (omega arith)
  length-take (suc n) (x ∷ xs) h = omega (arith, length-take n xs h)

chunks-concat :
    (fuel : ℕ) (rs : List UapRecord) → length rs ≤ fuel → concat (chunks_from fuel rs) ≡ rs
unfolding chunks_from
chunks-concat zero [] h = refl
chunks-concat zero (r ∷ rs) h = absurd (omega arith)
chunks-concat (suc fuel) [] h = refl
chunks-concat (suc fuel) (r ∷ rs) h =
    ap (λ ys. take chunk_size (r ∷ rs) ++ ys)
      (chunks-concat fuel (drop chunk_size (r ∷ rs)) (omega (arith, length-drop 19 rs)))
    ∙ take-drop chunk_size (r ∷ rs)

Full-cons :
    (c rest : List UapRecord) (fuel : ℕ)
    → 0 < length c
    → length c ≤ chunk_size
    → (0 < length rest → length c ≡ chunk_size)
    → length rest ≤ fuel
    → Full (chunks_from fuel rest)
    → Full (c ∷ chunks_from fuel rest)
unfolding chunks_from
Full-cons c [] zero some_records short full h rest_Full = (some_records, short)
Full-cons c [] (suc fuel) some_records short full h rest_Full = (some_records, short)
Full-cons c (r ∷ rs) zero some_records short full h rest_Full = absurd (omega arith)
Full-cons c (r ∷ rs) (suc fuel) some_records short full h rest_Full =
    (full (omega arith), rest_Full)

chunks-Full : (fuel : ℕ) (rs : List UapRecord) → length rs ≤ fuel → Full (chunks_from fuel rs)
unfolding chunks_from
chunks-Full zero rs h = tt
chunks-Full (suc fuel) [] h = tt
chunks-Full (suc fuel) (r ∷ rs) h =
    let rest = drop chunk_size (r ∷ rs) in
    let shorter : length rest ≤ fuel = omega (arith, length-drop 19 rs) in
    Full-cons (take chunk_size (r ∷ rs)) rest fuel (omega arith)
      (length-take-le chunk_size (r ∷ rs)) (length-take chunk_size (r ∷ rs)) shorter
      (chunks-Full fuel rest shorter)

-- The chunks of chunkRecords, one after the other, are the records, and each has twenty of them but
-- the last, which has one to twenty.
pub chunk_records-Full :
    (records : List UapRecord)
    → (concat (chunk_records records) ≡ records) × Full (chunk_records records)
unfolding chunk_records
chunk_records-Full records = (
  chunks-concat (length records) records (omega arith),
  chunks-Full (length records) records (omega arith),
)
