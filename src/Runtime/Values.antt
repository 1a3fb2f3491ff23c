-- ===== src/Runtime/Values.antt =====
-- What an action that succeeded has done on its way.
use ingest_srv.Shared.{◌≡◌, Option, none}
use ingest_srv.Runtime.{World, ok, Exec, ◌>>=◌, check, pure}
use ingest_srv.Runtime.Steps.{Post-bind, Post-check}

module _ {ℓ κ μ} {E : Type ℓ} {A : Type κ} {B : Type μ} where
  pub bind_value :
      (m : Exec E A) (f : A → Exec E B) (w : World) {b : B}
      → ((m >>= f) w).0 ≡ ok b
      → (a : A) × ((m w).0 ≡ ok a) × ((f a (m w).1).0 ≡ ok b)
  bind_value m f w {b} =
      Post-bind (λ r. r.0 ≡ ok b → (a : A) × ((m w).0 ≡ ok a) × ((f a (m w).1).0 ≡ ok b)) m f w
        (λ e h k. cc) (λ h k. cc) (λ a h k. (a, h, k))

pub check_value {ℓ κ} :
    {E : Type ℓ} {B : Type κ} (o : Option E) (f : Unit {0} → Exec E B) (w : World) {b : B}
    → ((check o >>= f) w).0 ≡ ok b
    → (o ≡ none) × ((f tt w).0 ≡ ok b)
check_value o f w {b} =
    Post-check (λ r. r.0 ≡ ok b → (o ≡ none) × ((f tt w).0 ≡ ok b)) o f w (λ e h k. cc)
      (λ h k. (h, k))

pub pure_value {ℓ κ} :
    {E : Type ℓ} {A : Type κ} (a b : A) (w : World) → (pure {E = E} a w).0 ≡ ok b → a ≡ b
unfolding pure
pure_value a b w h = cc
