-- ===== src/Runtime/Keeps.antt =====
-- Rules for actions that keep a predicate of the jobs, tasks and batches, however they end. There is
-- one rule for each way to build an action; an action that only reads keeps every predicate.
use ingest_srv.Shared.{
  ◌≡◌, sym, subst, Option, some, Bool, true, false, if◌then◌else◌, ◌⊎◌, inl, inr,
}
use ingest_srv.Model.{Work}
use ingest_srv.Runtime.{
  World, Outcome, ok, err, panic, Exec, ◌>>=◌, wrap, statement, transaction, attempt, spent,
}
use ingest_srv.Runtime.Steps.{Reads, statement_cases, Post-bind}

module _ {μ} (Q : Work → Type μ) where
  pub record Keeps {ℓ κ} {E : Type ℓ} {A : Type κ} (m : Exec E A) : Type (ℓ ⊔ κ ⊔ μ) where
    pub kept : (w : World) → Q w.work → Q (m w).1.work

  pub Keeps-Reads {ℓ κ} : {E : Type ℓ} {A : Type κ} {m : Exec E A} → Reads m → Keeps m
  Keeps-Reads r = record { kept = λ w q. subst Q (sym (r.at w).work) q }

  pub Keeps-bind {ℓ κ ν} :
      {E : Type ℓ} {A : Type κ} {B : Type ν} (m : Exec E A) (f : A → Exec E B)
      → Keeps m
      → ((a : A) → Keeps (f a))
      → Keeps (m >>= f)
  Keeps-bind m f km kf = record {
    kept = λ w q.
        Post-bind (λ r. Q r.1.work) m f w (λ e _. km.kept w q) (λ _. km.kept w q)
          (λ a _. (kf a).kept (m w).1 (km.kept w q));
  }

  settled {ℓ κ ν} :
      {E F : Type ℓ} {A : Type κ} {B : Type ν} (f : A ⊎ E → Exec F B) (o : Outcome E A) (w : World)
      → ((x : A ⊎ E) → Keeps (f x))
      → Q w.work
      → Q ((attempt {F = F} (λ v. (o, w)) >>= f) w).1.work
  unfolding attempt ◌>>=◌
  settled f (ok a) w kf q = (kf (inl a)).kept w q
  settled f (err e) w kf q = (kf (inr e)).kept w q
  settled f panic w kf q = q

  pub Keeps-attempt {ℓ κ ν} :
      {E F : Type ℓ} {A : Type κ} {B : Type ν} (m : Exec E A) (f : A ⊎ E → Exec F B)
      → Keeps m
      → ((x : A ⊎ E) → Keeps (f x))
      → Keeps (attempt m >>= f)
  unfolding attempt ◌>>=◌
  Keeps-attempt m f km kf = record { kept = λ w q. settled f (m w).0 (m w).1 kf (km.kept w q) }

  pub Keeps-wrap {ℓ κ ν} :
      {E : Type ℓ} {F : Type κ} {A : Type ν} (f : E → F) (m : Exec E A) → Keeps m → Keeps (wrap f m)
  unfolding wrap
  Keeps-wrap f m km = record { kept = km.kept }

  pub Keeps-statement {ℓ κ} :
      {E : Type ℓ} {A : Type κ} (e : E) (run : World → Option (A × World))
      → ((w : World) (r : A × World) → run w ≡ some r → Q w.work → Q r.1.work)
      → Keeps (statement e run)
  Keeps-statement e run keep = record {
    kept = λ w q. elim (statement_cases e run w) [
      | inl down ↦ rw down q
      | inr (r, accepted, runs) ↦ rw runs (keep (spent w) r accepted q)
    ];
  }

  ended {ℓ κ} :
      {E : Type ℓ} {A : Type κ} (o : Outcome E A) (w v : World)
      → Q w.work
      → Q v.work
      → Q (transaction {A = A} (λ u. (o, v)) w).1.work
  unfolding transaction
  ended (ok a) w v q q' = q'
  ended (err e) w v q q' = q
  ended panic w v q q' = q

  pub Keeps-transaction {ℓ κ} :
      {E : Type ℓ} {A : Type κ} (m : Exec E A) → Keeps m → Keeps (transaction m)
  unfolding transaction
  Keeps-transaction m km = record { kept = λ w q. ended (m w).0 w (m w).1 q (km.kept w q) }

  pub Keeps-if {ℓ κ} :
      {E : Type ℓ} {A : Type κ} (b : Bool) (m n : Exec E A)
      → Keeps m
      → Keeps n
      → Keeps (if b then m else n)
  Keeps-if true m n km kn = km
  Keeps-if false m n km kn = kn
