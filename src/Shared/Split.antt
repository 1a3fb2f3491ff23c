-- ===== src/Shared/Split.antt =====
-- Text: the parts of a path.
use Prim.Native.Char.{Char, code}
use Prim.Native.String.{String}
use mathlib.Core.List.{List, [], ◌∷◌}
use mathlib.Core.Path.{◌≡◌, refl}
use ingest_srv.Shared.Basics.{nat_eq, if◌then◌else◌}

cut : Char → List String → List String
cut c [] = []
cut c (s ∷ ss) = if nat_eq (code c) 47 then "" ∷ s ∷ ss else String.◌∷◌ c s ∷ ss

-- strings.Split(s, "/")
unfoldable pub split_slash : String → List String
unfolding cut
split_slash String.[] = "" ∷ []
split_slash (String.◌∷◌ c s) = cut c (split_slash s)

split_slash_test : split_slash "/@a/b" ≡ "" ∷ "@a" ∷ "b" ∷ []
unfolding split_slash
split_slash_test = refl
