-- ===== src/Runtime/Spares.antt =====
-- Rules for actions that leave the dry runs alone and never panic, one for each way to build an
-- action.
use ingest_srv.Shared.{◌≡◌, refl, ◌∙◌, Option, some, ◌⊎◌, inl, inr}
use ingest_srv.Runtime.{World, Exec, ◌>>=◌, wrap, statement, attempt, spent}
use ingest_srv.Runtime.Steps.{Reads, statement_cases, Post-bind, Post-attempt}
use ingest_srv.Runtime.Calm.{Calm, Calm-Reads, Calm-bind, Calm-statement, Calm-wrap, Calm-attempt}

pub record Spares {ℓ κ} {E : Type ℓ} {A : Type κ} (m : Exec E A) : Type (ℓ ⊔ κ) where
  pub spared : (w : World) → (m w).1.dryruns ≡ w.dryruns
  pub calm : Calm m

pub Spares-Reads {ℓ κ} : {E : Type ℓ} {A : Type κ} {m : Exec E A} → Reads m → Spares m
Spares-Reads r = record { spared = λ w. (r.at w).dryruns; calm = Calm-Reads r }

pub Spares-bind {ℓ κ ν} :
    {E : Type ℓ} {A : Type κ} {B : Type ν} (m : Exec E A) (f : A → Exec E B)
    → Spares m
    → ((a : A) → Spares (f a))
    → Spares (m >>= f)
Spares-bind m f sm sf = record {
  spared = λ w.
      Post-bind (λ r. r.1.dryruns ≡ w.dryruns) m f w (λ e _. sm.spared w) (λ _. sm.spared w)
        (λ a _. (sf a).spared (m w).1 ∙ sm.spared w);
  calm = Calm-bind m f sm.calm (λ a. (sf a).calm);
}

pub Spares-wrap {ℓ κ ν} :
    {E : Type ℓ} {F : Type κ} {A : Type ν} (f : E → F) (m : Exec E A) → Spares m → Spares (wrap f m)
unfolding wrap
Spares-wrap f m sm = record { spared = sm.spared; calm = Calm-wrap f m sm.calm }

pub Spares-statement {ℓ κ} :
    {E : Type ℓ} {A : Type κ} (e : E) (run : World → Option (A × World))
    → ((w : World) (r : A × World) → run w ≡ some r → r.1.dryruns ≡ w.dryruns)
    → Spares (statement e run)
Spares-statement e run same = record {
  spared = λ w. elim (statement_cases e run w) [
    | inl down ↦ rw down refl
    | inr (r, accepted, runs) ↦ rw runs (same (spent w) r accepted)
  ];
  calm = Calm-statement e run;
}

pub Spares-attempt {ℓ κ ν} :
    {E F : Type ℓ} {A : Type κ} {B : Type ν} (m : Exec E A) (f : A ⊎ E → Exec F B)
    → Spares m
    → ((x : A ⊎ E) → Spares (f x))
    → Spares (attempt m >>= f)
Spares-attempt m f sm sf = record {
  spared = λ w.
      Post-attempt (λ r. r.1.dryruns ≡ w.dryruns) m f w (sm.calm.calm w)
        (λ a _. (sf (inl a)).spared (m w).1 ∙ sm.spared w)
        (λ e _. (sf (inr e)).spared (m w).1 ∙ sm.spared w);
  calm = Calm-attempt m f sm.calm (λ x. (sf x).calm);
}
