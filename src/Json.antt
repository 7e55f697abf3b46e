-- ===== src/Json.antt =====
-- The values that `json.loads` and the YAML loader give the scripts, as Python compares them.
-- An object lists its members in the order of their names: two Python dicts with the same names
-- and values are one list here.
use Prim.Native.String.{compare}
use text.Mathlib.Text.{is_lt}
use private_match_protocol.Prelude.{
  String, ◌≡◌, refl, Bool, true, false, ◌&&◌, ◌||◌, Option, none, some, arith, ℤ, pos, eq_ℤ, str_eq,
  eq_refl, if◌then◌else◌, not, eq_ℤ_iff,
}

mutual
  pub data Json : Type 0 where
    null : Json
    bool : Bool → Json
    int : ℤ → Json
    str : String → Json
    arr : Items → Json
    obj : Fields → Json

  pub data Items : Type 0 where
    nil : Items
    cons : Json → Items → Items

  pub data Fields : Type 0 where
    end : Fields
    field : String → Json → Fields → Fields

-- Python's numbers: `True == 1` and `False == 0`.
abbrev pub number_of : Json → Option ℤ
number_of (bool true) = some (pos 1)
number_of (bool false) = some (pos 0)
number_of (int n) = some n
number_of _ = none

abbrev same_number : Option ℤ → Option ℤ → Bool
same_number (some m) (some n) = eq_ℤ m n
same_number _ _ = false

-- `a == b`
unfoldable mutual
  pub json_eq : Json → Json → Bool
  json_eq null null = true
  json_eq (str s) (str t) = str_eq s t
  json_eq (arr xs) (arr ys) = items_eq xs ys
  json_eq (obj fs) (obj gs) = fields_eq fs gs
  json_eq (bool b) v = same_number (number_of (bool b)) (number_of v)
  json_eq (int n) v = same_number (number_of (int n)) (number_of v)
  json_eq _ _ = false

  pub items_eq : Items → Items → Bool
  items_eq nil nil = true
  items_eq (cons x xs) (cons y ys) = json_eq x y && items_eq xs ys
  items_eq _ _ = false

  pub fields_eq : Fields → Fields → Bool
  fields_eq end end = true
  fields_eq (field k v fs) (field j w gs) = str_eq k j && (json_eq v w && fields_eq fs gs)
  fields_eq _ _ = false

mutual
  unfolding json_eq

  json_eq_refl' : (v : Json) → json_eq v v ≡ true
  json_eq_refl' null = refl
  json_eq_refl' (bool true) = refl
  json_eq_refl' (bool false) = refl
  json_eq_refl' (int n) = (eq_ℤ_iff n n).1 refl
  json_eq_refl' (str s) = eq_refl s
  json_eq_refl' (arr xs) = items_eq_refl xs
  json_eq_refl' (obj fs) = fields_eq_refl fs

  items_eq_refl : (xs : Items) → items_eq xs xs ≡ true
  items_eq_refl nil = refl
  items_eq_refl (cons x xs) = ground (arith, json_eq_refl' x, items_eq_refl xs)

  fields_eq_refl : (fs : Fields) → fields_eq fs fs ≡ true
  fields_eq_refl end = refl
  fields_eq_refl (field k v fs) = ground (arith, eq_refl k, json_eq_refl' v, fields_eq_refl fs)

pub json_eq_refl : (v : Json) → json_eq v v ≡ true
json_eq_refl v = json_eq_refl' v

-- `fs.get(k)`: a missing member and a null one both read as `None`.
unfoldable pub get : String → Fields → Json
get k end = null
get k (field j v fs) = if str_eq j k then v else get k fs

-- `k in fs`
unfoldable pub has : String → Fields → Bool
has k end = false
has k (field j v fs) = str_eq j k || has k fs

-- `fs[k] = v`, which keeps the order of the names.
unfoldable pub put : String → Json → Fields → Fields
put k v end = field k v end
put k v (field j w fs) =
    let later = put k v fs in
    if str_eq j k
    then field k v fs
    else if is_lt (compare k j)
    then field k v (field j w fs)
    else field j w later

-- `v.get(k)` for a member that is an object, `(v or {}).get(k)` for one that may be `None`.
abbrev pub member : String → Json → Json
member k (obj fs) = get k fs
member k _ = null

abbrev pub is_null : Json → Bool
is_null null = true
is_null _ = false

-- `bool(v)`
abbrev pub truthy : Json → Bool
truthy null = false
truthy (bool b) = b
truthy (int n) = not (eq_ℤ n (pos 0))
truthy (str s) = not (str_eq s "")
truthy (arr nil) = false
truthy (arr (cons _ _)) = true
truthy (obj end) = false
truthy (obj (field _ _ _)) = true

-- `isinstance(v, str)`
abbrev pub text_of : Json → Option String
text_of (str s) = some s
text_of _ = none

-- `isinstance(v, int) and not isinstance(v, bool)`
abbrev pub integer_of : Json → Option ℤ
integer_of (int n) = some n
integer_of _ = none
