-- ===== src/Runtime/Unsent.antt =====
-- Rules for actions that send no message, one for each way to build an action.
use ingest_srv.Shared.{◌≡◌, refl, ◌∙◌, Option, some, Bool, true, false, if◌then◌else◌, inl, inr}
use ingest_srv.Runtime.{
  World, Outcome, ok, err, panic, Exec, ◌>>=◌, wrap, statement, transaction, spent,
}
use ingest_srv.Runtime.Steps.{Reads, statement_cases, Post-bind}

pub record Unsent {ℓ κ} {E : Type ℓ} {A : Type κ} (m : Exec E A) : Type (ℓ ⊔ κ) where
  pub unsent : (w : World) → (m w).1.sent ≡ w.sent

pub Unsent-Reads {ℓ κ} : {E : Type ℓ} {A : Type κ} {m : Exec E A} → Reads m → Unsent m
Unsent-Reads r = record { unsent = λ w. (r.at w).sent }

pub Unsent-bind {ℓ κ ν} :
    {E : Type ℓ} {A : Type κ} {B : Type ν} (m : Exec E A) (f : A → Exec E B)
    → Unsent m
    → ((a : A) → Unsent (f a))
    → Unsent (m >>= f)
Unsent-bind m f um uf = record {
  unsent = λ w.
      Post-bind (λ r. r.1.sent ≡ w.sent) m f w (λ e _. um.unsent w) (λ _. um.unsent w)
        (λ a _. (uf a).unsent (m w).1 ∙ um.unsent w);
}

pub Unsent-wrap {ℓ κ ν} :
    {E : Type ℓ} {F : Type κ} {A : Type ν} (f : E → F) (m : Exec E A) → Unsent m → Unsent (wrap f m)
unfolding wrap
Unsent-wrap f m um = record { unsent = um.unsent }

pub Unsent-statement {ℓ κ} :
    {E : Type ℓ} {A : Type κ} (e : E) (run : World → Option (A × World))
    → ((w : World) (r : A × World) → run w ≡ some r → r.1.sent ≡ w.sent)
    → Unsent (statement e run)
Unsent-statement e run same = record {
  unsent = λ w. elim (statement_cases e run w) [
    | inl down ↦ rw down refl
    | inr (r, accepted, runs) ↦ rw runs (same (spent w) r accepted)
  ];
}

ended {ℓ κ} :
    {E : Type ℓ} {A : Type κ} (o : Outcome E A) (w v : World)
    → v.sent ≡ w.sent
    → (transaction {A = A} (λ u. (o, v)) w).1.sent ≡ w.sent
unfolding transaction
ended (ok a) w v same = same
ended (err e) w v same = same
ended panic w v same = same

pub Unsent-transaction {ℓ κ} :
    {E : Type ℓ} {A : Type κ} (m : Exec E A) → Unsent m → Unsent (transaction m)
unfolding transaction
Unsent-transaction m um = record { unsent = λ w. ended (m w).0 w (m w).1 (um.unsent w) }

pub Unsent-if {ℓ κ} :
    {E : Type ℓ} {A : Type κ} (b : Bool) (m n : Exec E A)
    → Unsent m
    → Unsent n
    → Unsent (if b then m else n)
Unsent-if true m n um un = um
Unsent-if false m n um un = un
