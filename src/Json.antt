-- ===== src/Json.antt =====
-- The JSON values that the SDK stores and sends, as Python values: an object is a `dict` in
-- insertion order, and `True == 1` as in Python. Numbers are integers.
pub mod Convert
use openlinker_python.Prelude.{
  ℕ, ◌+◌, ◌≡◌, refl, Bool, true, false, ◌&&◌, Option, none, some, ◌==◌, Text, ℤ, pos, if◌then◌else◌,
  arith, text_eq, nat_eq, int_eq, List, [], ◌∷◌,
}

mutual
  pub data Json : Type 0 where
    null : Json
    bool : Bool → Json
    int : ℤ → Json
    str : Text → Json
    arr : Items → Json
    obj : Fields → Json

  pub data Items : Type 0 where
    nil : Items
    cons : Json → Items → Items

  pub data Fields : Type 0 where
    end : Fields
    field : Text → Json → Fields → Fields

-- `d.get(k)`
unfoldable pub get_field : Fields → Text → Option Json
get_field end k = none
get_field (field j v fs) k = if j == k then some v else get_field fs k

-- `d[k] = v`
unfoldable pub set_field : Fields → Text → Json → Fields
set_field end k v = field k v end
set_field (field j w fs) k v =
    let rest = set_field fs k v in if j == k then field j v fs else field j w rest

-- `len(d)`
abbrev pub count_fields : Fields → ℕ
count_fields end = 0
count_fields (field k v fs) = count_fields fs + 1

-- `list(d)`
abbrev pub keys : Fields → List Text
keys end = []
keys (field k v fs) = k ∷ keys fs

-- the items of a list
abbrev pub items : Items → List Json
items nil = []
items (cons v vs) = v ∷ items vs

-- a list as a JSON value
abbrev pub array : List Json → Items
array [] = nil
array (v ∷ vs) = cons v (array vs)

-- `d.get(k, default)`
abbrev pub field_or : Fields → Text → Json → Json
field_or fs k d = elim (get_field fs k) [ none ↦ d | some v ↦ v ]

-- A number that compares with other numbers: `True` and `False` are 1 and 0.
abbrev pub as_int : Json → Option ℤ
as_int (bool b) = some (if b then pos 1 else pos 0)
as_int (int n) = some n
as_int _ = none

int_eq_json : ℤ → Option ℤ → Bool
int_eq_json n none = false
int_eq_json n (some m) = n == m

str_eq_json : Text → Json → Bool
str_eq_json s (str t) = s == t
str_eq_json s _ = false

is_null : Json → Bool
is_null null = true
is_null _ = false

-- `a == b`: lists item by item, objects by their keys in any order.
unfoldable mutual
  unfolding int_eq_json str_eq_json is_null

  pub json_beq : Json → Json → Bool
  json_beq null b = is_null b
  json_beq (bool x) b = int_eq_json (if x then pos 1 else pos 0) (as_int b)
  json_beq (int n) b = int_eq_json n (as_int b)
  json_beq (str s) b = str_eq_json s b
  json_beq (arr xs) (arr ys) = items_beq xs ys
  json_beq (obj fs) (obj gs) = count_fields fs == count_fields gs && fields_in fs gs
  json_beq (arr xs) _ = false
  json_beq (obj fs) _ = false

  pub items_beq : Items → Items → Bool
  items_beq nil nil = true
  items_beq (cons x xs) (cons y ys) = json_beq x y && items_beq xs ys
  items_beq _ _ = false

  -- every item of the first object stands in the second
  pub fields_in : Fields → Fields → Bool
  fields_in end gs = true
  fields_in (field k v fs) gs =
      elim (get_field gs k) [ none ↦ false | some w ↦ json_beq v w ] && fields_in fs gs

pub get_field-set_field :
    (fs : Fields) (k j : Text) (v : Json)
    → get_field (set_field fs k v) j ≡ (if k == j then some v else get_field fs j)
unfolding get_field set_field
get_field-set_field end k j v = refl
get_field-set_field (field i w fs) k j v = ground (
  arith,
  text_eq.same_iff i k,
  text_eq.same_iff i j,
  text_eq.same_iff k j,
  get_field-set_field fs k j v,
)

-- A new key makes an object longer.
pub count_fields-set_field_new :
    (fs : Fields) (k : Text) (v : Json)
    → get_field fs k ≡ none
    → count_fields (set_field fs k v) ≡ count_fields fs + 1
unfolding get_field set_field
count_fields-set_field_new end k v h = refl
count_fields-set_field_new (field i w fs) k v h = ground (arith, count_fields-set_field_new fs k v)
