-- ===== src/Json.antt =====
-- JSON documents as `encoding/json` decodes them into `interface{}`: an object is a Go map, here an
-- association list whose first entry for a key counts. A number is named by the canonical text of
-- its float64. `deep_equal` is `reflect.DeepEqual` on such values.
use ingest_srv.Shared.{
  String, Bool, true, false, Option, none, some, ◌==◌, ◌&&◌, ◌≡◌, refl, ℕ, suc, nat_eq, eq_iff,
  arith, if◌then◌else◌,
}

mutual
  pub data Json : Type 0 where
    null : Json
    bool : Bool → Json
    num : String → Json
    str : String → Json
    arr : Items → Json
    obj : Fields → Json

  pub data Items : Type 0 where
    nil : Items
    cons : Json → Items → Items

  pub data Fields : Type 0 where
    end : Fields
    field : String → Json → Fields → Fields

-- `m[key]`
unfoldable pub get : Fields → String → Option Json
get end key = none
get (field k v fs) key = let rest = get fs key in if k == key then some v else rest

-- `m[key] = value`
unfoldable pub put : Fields → String → Json → Fields
put end key value = field key value end
put (field k v fs) key value =
    let rest = put fs key value in if k == key then field key value fs else field k v rest

abbrev size : Fields → ℕ
size end = 0
size (field k v fs) = suc (size fs)

abbrev bool_eq : Bool → Bool → Bool
bool_eq true b = b
bool_eq false true = false
bool_eq false false = true

unfoldable mutual
  pub deep_equal : Json → Json → Bool
  deep_equal null null = true
  deep_equal (bool a) (bool b) = bool_eq a b
  deep_equal (num a) (num b) = a == b
  deep_equal (str a) (str b) = a == b
  deep_equal (arr xs) (arr ys) = equal_items xs ys
  deep_equal (obj fs) (obj gs) = nat_eq (size fs) (size gs) && equal_fields fs gs
  deep_equal _ _ = false

  pub equal_items : Items → Items → Bool
  equal_items nil nil = true
  equal_items (cons x xs) (cons y ys) = deep_equal x y && equal_items xs ys
  equal_items _ _ = false

  -- Every key of the left map holds an equal value in the right one.
  pub equal_fields : Fields → Fields → Bool
  equal_fields end gs = true
  equal_fields (field k v fs) gs =
      elim (get gs k) [ none ↦ false | some w ↦ deep_equal v w ] && equal_fields fs gs

-- What is put is got back, and the other keys keep their values.
pub get-put :
    (fs : Fields) (j k : String) (v : Json)
    → get (put fs j v) k ≡ (if j == k then some v else get fs k)
unfolding get put
get-put end j k v = refl
get-put (field i w fs) j k v = ground (arith, eq_iff j k, eq_iff i j, eq_iff i k, get-put fs j k v)
