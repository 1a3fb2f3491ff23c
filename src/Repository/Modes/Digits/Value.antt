-- ===== src/Repository/Modes/Digits/Value.antt =====
-- `itoa` writes the decimal digits of its argument.
use native.Mathlib.Numerals.{unary_clauses}
use ingest_srv.Shared.{
  ℕ, zero, suc, ◌+◌, ◌-◌, ◌*◌, ◌/◌, ◌%◌, ◌^◌, ◌<◌, ◌≡◌, refl, sym, ◌∙◌, ap, inl, inr, Option, some,
  List, [], ◌∷◌, true, nat_eq, arith, Bool-cases,
}
use ingest_srv.Repository.Modes.Digits.{fill, itoa, value_from}

-- The bytes are there, and read as `n` followed by what `out` adds.
abbrev Writes : ℕ → List ℕ → Option (List ℕ) → Type 0
Writes n out o = (bs : List ℕ) × (o ≡ some bs) × (value_from 0 bs ≡ value_from n out)

nat_eq_sound : (n : ℕ) → nat_eq n 0 ≡ true → n ≡ 0
nat_eq_sound n h = ground arith

last_digit : (n : ℕ) → n / 10 * 10 + (48 + n % 10 - 48) ≡ n
last_digit n = omega arith

shorter : (n p : ℕ) → n < p * 10 → n / 10 < p
shorter n p h = omega arith

below_one : (n : ℕ) → n < 1 → n ≡ 0
below_one n h = omega arith

fill-Writes : (room n : ℕ) (out : List ℕ) → n < 10 ^ room → Writes n out (fill room n out)
unfolding fill
fill-Writes zero n out small = let none_left = below_one n small in rw none_left (out, refl, refl)
fill-Writes (suc room) n out small = elim (Bool-cases (nat_eq n 0)) [
  | inl done ↦ rw done (out, refl, ap (λ m. value_from m out) (sym (nat_eq_sound n done)))
  | inr more ↦
      let (bs, written, value) =
        fill-Writes room (n / 10) ((48 + n % 10) ∷ out)
          (shorter n (10 ^ room) (simp unary_clauses at small)) in
      rw more (bs, written, value ∙ ap (λ m. value_from m out) (last_digit n))
]

-- `itoa` of a number below 10^10 does not panic, and the digits it writes read as that number.
pub value-itoa : (n : ℕ) → n < 10 ^ 10 → (bs : List ℕ) × (itoa n ≡ some bs) × (value_from 0 bs ≡ n)
unfolding itoa
value-itoa n small = elim (Bool-cases (nat_eq n 0)) [
  | inl is_zero ↦ rw is_zero (48 ∷ [], refl, sym (nat_eq_sound n is_zero))
  | inr more ↦ rw more (fill-Writes 10 n [] small)
]
