-- ===== src/Runtime/Steps.antt =====
-- Rules for actions. `Post P r` says that P holds of the outcome and the world of `r`; `Reads m` that
-- `m` leaves all tables alone, whether it succeeds or not. There is one rule for each way to build
-- an action.
use ingest_srv.Shared.{
  ◌≡◌, refl, ap, ◌∙◌, Option, none, some, ◌≢◌, ◌⊎◌, inl, inr, Bool-cases, Option-cases,
}
use ingest_srv.Runtime.{
  World, Outcome, ok, err, panic, Exec, Env, ◌>>=◌, pure, fail, check, wrap, query, statement,
  map_err, reading, new_id, spent, next_fault, attempt, call,
}

-- The tables and what was sent, published and uploaded are the same, whatever else was spent.
pub record SameTables (w w' : World) : Type 0 where
  pub sources : w'.sources ≡ w.sources
  pub targets : w'.targets ≡ w.targets
  pub dryruns : w'.dryruns ≡ w.dryruns
  pub changes : w'.changes ≡ w.changes
  pub hidden : w'.hidden ≡ w.hidden
  pub work : w'.work ≡ w.work
  pub sent : w'.sent ≡ w.sent
  pub published : w'.published ≡ w.published
  pub objects : w'.objects ≡ w.objects

pub SameTables-refl : (w : World) → SameTables w w
SameTables-refl w = record {
  sources = refl;
  targets = refl;
  dryruns = refl;
  changes = refl;
  hidden = refl;
  work = refl;
  sent = refl;
  published = refl;
  objects = refl;
}

pub SameTables-spent : (w : World) → SameTables w (spent w)
SameTables-spent w = record {
  sources = refl;
  targets = refl;
  dryruns = refl;
  changes = refl;
  hidden = refl;
  work = refl;
  sent = refl;
  published = refl;
  objects = refl;
}

pub SameTables-trans : {u v w : World} → SameTables u v → SameTables v w → SameTables u w
SameTables-trans p q = record {
  sources = q.sources ∙ p.sources;
  targets = q.targets ∙ p.targets;
  dryruns = q.dryruns ∙ p.dryruns;
  changes = q.changes ∙ p.changes;
  hidden = q.hidden ∙ p.hidden;
  work = q.work ∙ p.work;
  sent = q.sent ∙ p.sent;
  published = q.published ∙ p.published;
  objects = q.objects ∙ p.objects;
}

pub record Reads {ℓ κ} {E : Type ℓ} {A : Type κ} (m : Exec E A) : Type (ℓ ⊔ κ) where
  pub at : (w : World) → SameTables w (m w).1
  pub calm : (w : World) → (m w).0 ≢ panic

abbrev pub Post {ℓ κ μ} :
    {E : Type ℓ} {A : Type κ} → (Outcome E A × World → Type μ) → Outcome E A × World → Type μ
Post P r = P r

module _ {ℓ κ} {E : Type ℓ} {A : Type κ} (e : E) where
  pub query_cases :
      (read : World → A) (w : World)
      → (query e read w ≡ (err e, spent w)) ⊎ (query e read w ≡ (ok (read w), spent w))
  unfolding query
  query_cases read w = elim (Bool-cases (next_fault w.faults)) [
    | inl fails ↦ inl (rw fails)
    | inr runs ↦ inr (rw runs)
  ]

  pub statement_cases :
      (run : World → Option (A × World)) (w : World)
      → (statement e run w ≡ (err e, spent w))
        ⊎ ((r : A × World) × (run (spent w) ≡ some r) × (statement e run w ≡ (ok r.0, r.1)))
  unfolding statement
  statement_cases run w = elim (Bool-cases (next_fault w.faults)) [
    | inl fails ↦ inl (rw fails)
    | inr runs ↦ elim (Option-cases (run (spent w))) [
      | inl rejected ↦ inl (rw (runs, rejected))
      | inr (r, accepted) ↦ inr (r, accepted, rw (runs, accepted))
    ]
  ]

module _ {ℓ κ} {E : Type ℓ} {A : Type κ} where
  pub Reads-pure : (a : A) → Reads {E = E} (pure a)
  unfolding pure
  Reads-pure a = record { at = λ w. SameTables-refl w; calm = λ w e. cc }

  pub Reads-fail : (e : E) → Reads {A = A} (fail e)
  unfolding fail
  Reads-fail e = record { at = λ w. SameTables-refl w; calm = λ w p. cc }

  pub Reads-query : (e : E) (read : World → A) → Reads (query e read)
  Reads-query e read = record {
    at = λ w. elim (query_cases e read w) [
      | inl fails ↦ rw fails (SameTables-spent w)
      | inr runs ↦ rw runs (SameTables-spent w)
    ];
    calm = λ w. elim (query_cases e read w) [
      | inl fails ↦ rw fails (λ p. cc)
      | inr runs ↦ rw runs (λ p. cc)
    ];
  }

pub Reads-check {ℓ} : {E : Type ℓ} (o : Option E) → Reads (check o)
unfolding check
Reads-check none = record { at = λ w. SameTables-refl w; calm = λ w p. cc }
Reads-check (some e) = record { at = λ w. SameTables-refl w; calm = λ w p. cc }

pub Reads-reading {ℓ} : {E : Type ℓ} (env : Env) → Reads {E = E} (reading env)
unfolding reading
Reads-reading env = record {
  at = λ w. record {
    sources = refl;
    targets = refl;
    dryruns = refl;
    changes = refl;
    hidden = refl;
    work = refl;
    sent = refl;
    published = refl;
    objects = refl;
  };
  calm = λ w p. cc;
}

pub Reads-new_id {ℓ} : {E : Type ℓ} (env : Env) → Reads {E = E} (new_id env)
unfolding new_id
Reads-new_id env = record {
  at = λ w. record {
    sources = refl;
    targets = refl;
    dryruns = refl;
    changes = refl;
    hidden = refl;
    work = refl;
    sent = refl;
    published = refl;
    objects = refl;
  };
  calm = λ w p. cc;
}

map_err-calm {ℓ κ μ} :
    {E : Type ℓ} {F : Type κ} {A : Type μ} (f : E → F) (o : Outcome E A)
    → o ≢ panic
    → map_err f o ≢ panic
map_err-calm f (ok a) h p = cc
map_err-calm f (err e) h p = cc
map_err-calm f panic h p = h refl

pub Reads-wrap {ℓ κ μ} :
    {E : Type ℓ} {F : Type κ} {A : Type μ} (f : E → F) (m : Exec E A) → Reads m → Reads (wrap f m)
unfolding wrap
Reads-wrap f m r = record { at = r.at; calm = λ w. map_err-calm f (m w).0 (r.calm w) }

module _ {ℓ κ μ} {E : Type ℓ} {A : Type κ} {B : Type μ} where
  after_outcome {ν} :
      (P : Outcome E B × World → Type ν) (f : A → Exec E B) (o : Outcome E A) (w : World)
      → ((e : E) → o ≡ err e → P (err e, w))
      → (o ≡ panic → P (panic, w))
      → ((a : A) → o ≡ ok a → Post P (f a w))
      → Post P (((λ v. (o, w)) >>= f) w)
  unfolding ◌>>=◌
  after_outcome P f (ok a) w fails panics goes = goes a refl
  after_outcome P f (err e) w fails panics goes = fails e refl
  after_outcome P f panic w fails panics goes = panics refl

  -- The rule for a bind, by the outcome of its first action.
  pub Post-bind {ν} :
      (P : Outcome E B × World → Type ν) (m : Exec E A) (f : A → Exec E B) (w : World)
      → ((e : E) → (m w).0 ≡ err e → P (err e, (m w).1))
      → ((m w).0 ≡ panic → P (panic, (m w).1))
      → ((a : A) → (m w).0 ≡ ok a → Post P (f a (m w).1))
      → Post P ((m >>= f) w)
  unfolding ◌>>=◌
  Post-bind P m f w fails panics goes = after_outcome P f (m w).0 (m w).1 fails panics goes

  pub Reads-bind :
      (m : Exec E A) (f : A → Exec E B) → Reads m → ((a : A) → Reads (f a)) → Reads (m >>= f)
  Reads-bind m f rm rf = record {
    at = λ w.
        Post-bind (λ r. SameTables w r.1) m f w (λ e _. rm.at w) (λ _. rm.at w)
          (λ a _. SameTables-trans (rm.at w) ((rf a).at (m w).1));
    calm = λ w.
        Post-bind (λ r. r.0 ≢ panic) m f w (λ e _ p. cc) (λ p. absurd (rm.calm w p))
          (λ a _. (rf a).calm (m w).1);
  }

  -- The rule for a bind whose first action only reads.
  pub Post-read {ν} :
      (P : Outcome E B × World → Type ν) {m : Exec E A} (f : A → Exec E B) (w : World)
      → Reads m
      → ((e : E) (v : World) → SameTables w v → P (err e, v))
      → ((a : A) (v : World) → SameTables w v → (m w).0 ≡ ok a → Post P (f a v))
      → Post P ((m >>= f) w)
  Post-read P {m} f w r fails goes =
      Post-bind P m f w (λ e _. fails e (m w).1 (r.at w)) (λ p. absurd (r.calm w p))
        (λ a h. goes a (m w).1 (r.at w) h)

module _ {ℓ κ} {E : Type ℓ} {A : Type κ} {r : Outcome E A × World} {v : World} where
  pub value_of : {x a : A} → r ≡ (ok x, v) → r.0 ≡ ok a → x ≡ a
  value_of p h = let q = ap {B = Outcome E A} (λ z. z.0) p in cc

  pub not_value : {e : E} {a : A} → r ≡ (err e, v) → r.0 ≡ ok a → ⊥
  not_value p h = let q = ap {B = Outcome E A} (λ z. z.0) p in cc

-- The rule for a bind whose first action is a statement.
pub Post-statement {ℓ κ μ ν} :
    {E : Type ℓ} {A : Type κ} {B : Type μ} (P : Outcome E B × World → Type ν) (e : E)
    (run : World → Option (A × World)) (f : A → Exec E B) (w : World)
    → P (err e, spent w)
    → ((r : A × World) → run (spent w) ≡ some r → Post P (f r.0 r.1))
    → Post P ((statement e run >>= f) w)
unfolding ◌>>=◌
Post-statement P e run f w fails goes = elim (statement_cases e run w) [
  | inl down ↦ rw down fails
  | inr (r, accepted, runs) ↦ rw runs (goes r accepted)
]

-- What a query that succeeds answers.
pub query_value {ℓ κ} :
    {E : Type ℓ} {A : Type κ} (e : E) (read : World → A) (w : World) {a : A}
    → (query e read w).0 ≡ ok a
    → read w ≡ a
query_value e read w h = elim (query_cases e read w) [
  | inl fails ↦ absurd (not_value fails h)
  | inr runs ↦ value_of runs h
]

map_err-ok {ℓ κ μ} :
    {E : Type ℓ} {F : Type κ} {A : Type μ} (f : E → F) (o : Outcome E A) {a : A}
    → map_err f o ≡ ok a
    → o ≡ ok a
map_err-ok f (ok a) h = cc
map_err-ok f (err e) h = cc
map_err-ok f panic h = cc

-- A wrapped action succeeds with the value of the action.
pub wrap_value {ℓ κ μ} :
    {E : Type ℓ} {F : Type κ} {A : Type μ} (f : E → F) (m : Exec E A) (w : World) {a : A}
    → (wrap f m w).0 ≡ ok a
    → (m w).0 ≡ ok a
unfolding wrap
wrap_value f m w h = map_err-ok f (m w).0 h

-- The rule for a validation.
pub Post-check {ℓ κ ν} :
    {E : Type ℓ} {B : Type κ} (P : Outcome E B × World → Type ν) (o : Option E)
    (f : Unit {0} → Exec E B) (w : World)
    → ((e : E) → o ≡ some e → P (err e, w))
    → (o ≡ none → Post P (f tt w))
    → Post P ((check o >>= f) w)
unfolding ◌>>=◌ check
Post-check P none f w fails goes = goes refl
Post-check P (some e) f w fails goes = fails e refl

pub Reads-call {ℓ κ} : {E : Type ℓ} {A : Type κ} (f : World → A) → Reads {E = E} (call f)
unfolding call
Reads-call f = record { at = λ w. SameTables-spent w; calm = λ w p. cc }

module _ {ℓ κ μ} {E F : Type ℓ} {A : Type κ} {B : Type μ} where
  attempted {ν} :
      (P : Outcome F B × World → Type ν) (f : A ⊎ E → Exec F B) (o : Outcome E A) (w : World)
      → o ≢ panic
      → ((a : A) → o ≡ ok a → Post P (f (inl a) w))
      → ((e : E) → o ≡ err e → Post P (f (inr e) w))
      → Post P ((attempt (λ v. (o, w)) >>= f) w)
  unfolding ◌>>=◌ attempt
  attempted P f (ok a) w calm goes fails = goes a refl
  attempted P f (err e) w calm goes fails = fails e refl
  attempted P f panic w calm goes fails = absurd (calm refl)

  -- The rule for a bind whose first action may fail without ending the caller.
  pub Post-attempt {ν} :
      (P : Outcome F B × World → Type ν) (m : Exec E A) (f : A ⊎ E → Exec F B) (w : World)
      → (m w).0 ≢ panic
      → ((a : A) → (m w).0 ≡ ok a → Post P (f (inl a) (m w).1))
      → ((e : E) → (m w).0 ≡ err e → Post P (f (inr e) (m w).1))
      → Post P ((attempt m >>= f) w)
  unfolding ◌>>=◌ attempt
  Post-attempt P m f w calm goes fails = attempted P f (m w).0 (m w).1 calm goes fails

  pub Reads-attempt :
      (m : Exec E A) (f : A ⊎ E → Exec F B)
      → Reads m
      → ((x : A ⊎ E) → Reads (f x))
      → Reads (attempt m >>= f)
  Reads-attempt m f rm rf = record {
    at = λ w.
        Post-attempt (λ r. SameTables w r.1) m f w (rm.calm w)
          (λ a _. SameTables-trans (rm.at w) ((rf (inl a)).at (m w).1))
          (λ e _. SameTables-trans (rm.at w) ((rf (inr e)).at (m w).1));
    calm = λ w.
        Post-attempt (λ r. r.0 ≢ panic) m f w (rm.calm w) (λ a _. (rf (inl a)).calm (m w).1)
          (λ e _. (rf (inr e)).calm (m w).1);
  }

pub ruleset reads_rules =
    (Reads-pure, Reads-fail, Reads-query, Reads-check, Reads-reading, Reads-wrap, Reads-bind)
