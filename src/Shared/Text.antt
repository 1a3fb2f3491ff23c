-- ===== src/Shared/Text.antt =====
-- Text. `trim_space` is Go's `strings.TrimSpace`, over the characters of `unicode.IsSpace`.
use Prim.Native.Nat.{ℕ}
use Prim.Native.Char.{Char, code}
use Prim.Native.String.{String, [], ◌∷◌}
use mathlib.Core.Path.{◌≡◌, refl, ap, ◌∙◌}
use mathlib.Core.Logic.{inl, inr}
use mathlib.Core.Bool.{Bool, false, ◌&&◌, ◌||◌}
use native.Mathlib.Omega.{arith}
use text.Mathlib.Text.{◌==◌}
use ingest_srv.Shared.Basics.{leb, nat_eq, if◌then◌else◌, Bool-cases}

is_space : ℕ → Bool
is_space c =
    (leb 9 c && leb c 13)
    || nat_eq c 32
    || nat_eq c 133
    || nat_eq c 160
    || nat_eq c 5760
    || (leb 8192 c && leb c 8202)
    || nat_eq c 8232
    || nat_eq c 8233
    || nat_eq c 8239
    || nat_eq c 8287
    || nat_eq c 12288

trim_left : String → String
trim_left [] = ""
trim_left (c ∷ s) = if is_space (code c) then trim_left s else c ∷ s

push_unless : Char → String → String
push_unless c [] = if is_space (code c) then "" else c ∷ []
push_unless c (d ∷ s) = c ∷ d ∷ s

trim_right : String → String
trim_right [] = ""
trim_right (c ∷ s) = push_unless c (trim_right s)

unfoldable pub trim_space : String → String
unfolding trim_left trim_right push_unless is_space
trim_space s = trim_right (trim_left s)

-- The test `strings.TrimSpace(s) == ""`.
unfoldable pub is_blank : String → Bool
unfolding trim_space
is_blank s = trim_space s == ""

abbrev NoLead : String → Type 0
NoLead [] = Unit
NoLead (c ∷ s) = is_space (code c) ≡ false

trim_left-NoLead : (s : String) → NoLead (trim_left s)
unfolding trim_left
trim_left-NoLead [] = tt
trim_left-NoLead (c ∷ s) = ground (arith, trim_left-NoLead s)

trim_left_of_NoLead : (s : String) → NoLead s → trim_left s ≡ s
unfolding trim_left
trim_left_of_NoLead [] h = refl
trim_left_of_NoLead (c ∷ s) h = ground arith

push_unless-NoLead : (c : Char) (s : String) → is_space (code c) ≡ false → NoLead (push_unless c s)
unfolding push_unless
push_unless-NoLead c [] h = ground arith
push_unless-NoLead c (d ∷ s) h = h

trim_right-NoLead : (s : String) → NoLead s → NoLead (trim_right s)
unfolding trim_right
trim_right-NoLead [] h = tt
trim_right-NoLead (c ∷ s) h = push_unless-NoLead c (trim_right s) h

trim_right-push_unless :
    (c : Char) (s : String) → trim_right s ≡ s → trim_right (push_unless c s) ≡ push_unless c s
unfolding trim_right push_unless
trim_right-push_unless c [] h = elim (Bool-cases (is_space (code c))) [
  | inl blank ↦ rw blank
  | inr ink ↦ rw ink (rw ink)
]
trim_right-push_unless c (d ∷ s) h = rw h

trim_right_idem : (s : String) → trim_right (trim_right s) ≡ trim_right s
unfolding trim_right
trim_right_idem [] = refl
trim_right_idem (c ∷ s) = trim_right-push_unless c (trim_right s) (trim_right_idem s)

-- Trimming twice is trimming once: the use cases trim an identifier again before every query.
pub trim_space_idem : (s : String) → trim_space (trim_space s) ≡ trim_space s
unfolding trim_space
trim_space_idem s =
    ap trim_right (trim_left_of_NoLead _ (trim_right-NoLead _ (trim_left-NoLead s)))
    ∙ trim_right_idem (trim_left s)

trim_space_test : trim_space " a b\n" ≡ "a b"
unfolding trim_space
trim_space_test = refl
