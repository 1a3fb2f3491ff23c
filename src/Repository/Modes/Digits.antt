-- ===== src/Repository/Modes/Digits.antt =====
-- `itoa` of crawl_mode_change.go, which prints the placeholders of the bulk INSERT. The buffer has
-- ten bytes: the source indexes out of range, and panics, at a number of more than ten digits.
pub mod Value
use ingest_srv.Shared.{
  ℕ, zero, suc, ◌+◌, ◌-◌, ◌*◌, ◌/◌, ◌%◌, Option, none, some, List, [], ◌∷◌, nat_eq, if◌then◌else◌,
}

-- The loop: `room` bytes are left in the buffer, `out` is what stands behind them.
unfoldable pub fill : ℕ → ℕ → List ℕ → Option (List ℕ)
fill zero n out = if nat_eq n 0 then some out else none
fill (suc room) n out =
    let rest = fill room (n / 10) ((48 + n % 10) ∷ out) in if nat_eq n 0 then some out else rest

-- The bytes of the text; `none` is the panic.
unfoldable pub itoa : ℕ → Option (List ℕ)
itoa n = if nat_eq n 0 then some (48 ∷ []) else fill 10 n []

-- The number that decimal digits stand for, after a number that was read before.
abbrev pub value_from : ℕ → List ℕ → ℕ
value_from acc [] = acc
value_from acc (b ∷ bs) = value_from (acc * 10 + (b - 48)) bs
