-- ===== src/Shared/Case.antt =====
-- Text: `strings.ToLower` on ASCII letters, a prefix "@", and the decimal text of a number.
use Prim.Native.Nat.{ℕ, zero, suc, ◌-◌, ◌/◌, ◌%◌}
use Prim.Native.Char.{Char, code}
use Prim.Native.String.{String, [], ◌∷◌, ◌++◌, char_at}
use mathlib.Core.Path.{◌≡◌, refl}
use mathlib.Core.Bool.{Bool, true, false, ◌&&◌}
use ingest_srv.Shared.Basics.{leb, ltb, nat_eq, if◌then◌else◌}

lower_char : Char → Char
lower_char c =
    if leb 65 (code c) && leb (code c) 90
    then char_at "abcdefghijklmnopqrstuvwxyz" (code c - 65)
    else c

-- The other letters keep their case: no text that the program compares with has one.
unfoldable pub to_lower : String → String
unfolding lower_char
to_lower [] = ""
to_lower (c ∷ s) = lower_char c ∷ to_lower s

-- strings.TrimPrefix(s, "@")
unfoldable pub trim_at : String → String
trim_at [] = ""
trim_at (c ∷ s) = if nat_eq (code c) 64 then s else c ∷ s

-- strings.HasPrefix(s, "@") && len(s) > 1
unfoldable pub is_handle : String → Bool
is_handle [] = false
is_handle (c ∷ []) = false
is_handle (c ∷ d ∷ s) = nat_eq (code c) 64

is_digit : Char → Bool
is_digit c = leb 48 (code c) && leb (code c) 57

-- `^\d{n,}$`
unfoldable pub has_digits : ℕ → String → Bool
unfolding is_digit
has_digits zero [] = true
has_digits (suc n) [] = false
has_digits zero (c ∷ s) = is_digit c && has_digits zero s
has_digits (suc n) (c ∷ s) = is_digit c && has_digits n s

digit : ℕ → String
digit n = char_at "0123456789" (n % 10) ∷ ""

decimal_in : ℕ → ℕ → String
unfolding digit
decimal_in zero n = ""
decimal_in (suc fuel) n =
    let rest = decimal_in fuel (n / 10) in if ltb n 10 then digit n else rest ++ digit n

-- fmt's %d: a number has at most as many digits as its value, and one more.
unfoldable pub decimal : ℕ → String
unfolding decimal_in
decimal n = decimal_in (suc n) n

to_lower_test : to_lower "TikTok 5Z" ≡ "tiktok 5z"
unfolding to_lower
to_lower_test = refl

decimal_test : decimal 1440 ≡ "1440"
unfolding decimal
decimal_test = refl
