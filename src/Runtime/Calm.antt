-- ===== src/Runtime/Calm.antt =====
-- Rules for actions that never panic, one for each way to build an action.
use ingest_srv.Shared.{◌≢◌, refl, Option, Bool, true, false, if◌then◌else◌, ◌⊎◌, inl, inr}
use ingest_srv.Runtime.{
  World, Outcome, ok, err, panic, Exec, ◌>>=◌, wrap, statement, transaction, attempt, map_err,
}
use ingest_srv.Runtime.Steps.{Reads, statement_cases, Post-bind, Post-attempt}

pub record Calm {ℓ κ} {E : Type ℓ} {A : Type κ} (m : Exec E A) : Type (ℓ ⊔ κ) where
  pub calm : (w : World) → (m w).0 ≢ panic

pub Calm-Reads {ℓ κ} : {E : Type ℓ} {A : Type κ} {m : Exec E A} → Reads m → Calm m
Calm-Reads r = record { calm = r.calm }

pub Calm-bind {ℓ κ ν} :
    {E : Type ℓ} {A : Type κ} {B : Type ν} (m : Exec E A) (f : A → Exec E B)
    → Calm m
    → ((a : A) → Calm (f a))
    → Calm (m >>= f)
Calm-bind m f cm cf = record {
  calm = λ w.
      Post-bind (λ r. r.0 ≢ panic) m f w (λ e _ p. cc) (λ p. absurd (cm.calm w p))
        (λ a _. (cf a).calm (m w).1);
}

pub Calm-attempt {ℓ κ ν} :
    {E F : Type ℓ} {A : Type κ} {B : Type ν} (m : Exec E A) (f : A ⊎ E → Exec F B)
    → Calm m
    → ((x : A ⊎ E) → Calm (f x))
    → Calm (attempt m >>= f)
Calm-attempt m f cm cf = record {
  calm = λ w.
      Post-attempt (λ r. r.0 ≢ panic) m f w (cm.calm w) (λ a _. (cf (inl a)).calm (m w).1)
        (λ e _. (cf (inr e)).calm (m w).1);
}

pub Calm-statement {ℓ κ} :
    {E : Type ℓ} {A : Type κ} (e : E) (run : World → Option (A × World)) → Calm (statement e run)
Calm-statement e run = record {
  calm = λ w. elim (statement_cases e run w) [
    | inl down ↦ rw down (λ p. cc)
    | inr (r, accepted, runs) ↦ rw runs (λ p. cc)
  ];
}

mapped {ℓ κ μ} :
    {E : Type ℓ} {F : Type κ} {A : Type μ} (f : E → F) (o : Outcome E A)
    → o ≢ panic
    → map_err f o ≢ panic
mapped f (ok a) h p = cc
mapped f (err e) h p = cc
mapped f panic h p = h refl

pub Calm-wrap {ℓ κ ν} :
    {E : Type ℓ} {F : Type κ} {A : Type ν} (f : E → F) (m : Exec E A) → Calm m → Calm (wrap f m)
unfolding wrap
Calm-wrap f m cm = record { calm = λ w. mapped f (m w).0 (cm.calm w) }

ended {ℓ κ} :
    {E : Type ℓ} {A : Type κ} (o : Outcome E A) (w v : World)
    → o ≢ panic
    → (transaction {A = A} (λ u. (o, v)) w).0 ≢ panic
unfolding transaction
ended (ok a) w v h p = cc
ended (err e) w v h p = cc
ended panic w v h p = h refl

pub Calm-transaction {ℓ κ} :
    {E : Type ℓ} {A : Type κ} (m : Exec E A) → Calm m → Calm (transaction m)
unfolding transaction
Calm-transaction m cm = record { calm = λ w. ended (m w).0 w (m w).1 (cm.calm w) }

pub Calm-if {ℓ κ} :
    {E : Type ℓ} {A : Type κ} (b : Bool) (m n : Exec E A)
    → Calm m
    → Calm n
    → Calm (if b then m else n)
Calm-if true m n cm cn = cm
Calm-if false m n cm cn = cn
