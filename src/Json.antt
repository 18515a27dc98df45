-- ===== src/Json.antt =====
-- JSON values as `json.loads` returns them, and the tests that the program makes on them.
use okam_ha_native.Base.{
  arith, ◌≡◌, refl, ℕ, Bool, true, false, not, ◌&&◌, ◌||◌, List, [], ◌∷◌, Option, none, some,
  String, if◌then◌else◌, leb, ◌==◌, zero,
}
use okam_ha_native.Base.Int.{ℤ, pos, negsuc}
use okam_ha_native.Base.Text.{Text}
use text.Mathlib.Text.{◌==◌ as str_eq}
use text.Mathlib.TextEquality.{eq_iff}

-- `real` is a number with a fraction or an exponent, the way it is written. The keys of an object
-- are different from each other.
mutual
  pub data Json : Type 0 where
    null : Json
    boolean : Bool → Json
    number : ℤ → Json
    real : Text → Json
    string : Text → Json
    array : Items → Json
    object : Members → Json

  pub data Items : Type 0 where
    no_items : Items
    item : Json → Items → Items

  pub data Members : Type 0 where
    no_members : Members
    member : String → Json → Members → Members

-- `dict.get`, with `none` where Python returns `None`
unfoldable pub get : String → Members → Option Json
get name no_members = none
get name (member k v m) = if str_eq k name then some v else get name m

abbrev pub items_of : Items → List Json
items_of no_items = []
items_of (item v vs) = v ∷ items_of vs

abbrev pub members_of : Members → List (String × Json)
members_of no_members = []
members_of (member k v m) = (k, v) ∷ members_of m

-- `isinstance(v, bool)`, `isinstance(v, str)`, `isinstance(v, dict)`, `isinstance(v, list)`: the value.
abbrev pub as_bool : Option Json → Option Bool
as_bool (some (boolean b)) = some b
as_bool _ = none

abbrev pub as_string : Option Json → Option Text
as_string (some (string s)) = some s
as_string _ = none

abbrev pub as_object : Option Json → Option Members
as_object (some (object m)) = some m
as_object _ = none

abbrev pub as_array : Option Json → Option Items
as_array (some (array l)) = some l
as_array _ = none

abbrev pub of_bool : Bool → ℤ
of_bool true = pos 1
of_bool false = pos 0

-- `isinstance(v, int)`: a Boolean is an integer, 0 or 1.
abbrev pub as_int : Option Json → Option ℤ
as_int (some (number n)) = some n
as_int (some (boolean b)) = some (of_bool b)
as_int _ = none

-- `isinstance(v, int) and not isinstance(v, bool)`
abbrev pub as_number : Option Json → Option ℤ
as_number (some (number n)) = some n
as_number _ = none

-- `v is None`
abbrev pub is_none : Option Json → Bool
is_none none = true
is_none (some null) = true
is_none (some _) = false

-- `v is True`
abbrev pub is_true : Option Json → Bool
is_true (some (boolean true)) = true
is_true _ = false

-- A real number that is written with zeros only, as `0.0` or `-0e5`: no digit from 1 to 9 before its
-- exponent.
abbrev zero_digits : Text → Bool
zero_digits [] = true
zero_digits (c ∷ cs) =
    let rest = zero_digits cs in
    if c == 0x65 || c == 0x45 then true else not (leb 0x31 c && leb c 0x39) && rest

-- `bool(v)`
abbrev pub truthy : Option Json → Bool
truthy none = false
truthy (some null) = false
truthy (some (boolean b)) = b
truthy (some (number (pos zero))) = false
truthy (some (number n)) = true
truthy (some (real s)) = not (zero_digits s)
truthy (some (string [])) = false
truthy (some (string s)) = true
truthy (some (array no_items)) = false
truthy (some (array l)) = true
truthy (some (object no_members)) = false
truthy (some (object m)) = true

-- `n < 0`, and `low <= n <= high`
abbrev pub negative : ℤ → Bool
negative (pos n) = false
negative (negsuc n) = true

abbrev pub between : ℕ → ℕ → ℤ → Bool
between low high (pos n) = leb low n && leb n high
between low high (negsuc n) = false

-- `dict.update` with one key
unfoldable pub put : String → Json → Members → Members
put name v no_members = member name v no_members
put name v (member k w m) =
    let rest = put name v m in if str_eq k name then member k v m else member k w rest

-- `dict.update`
abbrev pub update : List (String × Json) → Members → Members
update [] m = m
update ((name, v) ∷ vs) m = update vs (put name v m)

-- A key that was set has its value, and the others keep theirs.
pub get-put :
    (k j : String) (v : Json) (m : Members)
    → get k (put j v m) ≡ (if str_eq j k then some v else get k m)
unfolding get put
get-put k j v no_members = refl
get-put k j v (member i w m) = ground (arith, eq_iff j k, eq_iff i j, eq_iff i k, get-put k j v m)
