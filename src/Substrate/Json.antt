-- ===== src/Substrate/Json.antt =====
-- `serde_json::Value`, as its documentation describes it: a number is an unsigned integer, a negative
-- one or a float, and an object keeps its keys sorted.
use lmml.Base.{
  ℕ, String, Bool, true, false, ◌&&◌, List, [], ◌∷◌, ◌==◌, Option, none, some, eqb, if◌then◌else◌,
}
use lmml.Base.F64
use lmml.Base.F64.{F64}

pub data Number : Type 0 where
  pos_int neg_int : ℕ → Number
  float : F64 → Number

mutual
  pub data Value : Type 0 where
    null : Value
    bool : Bool → Value
    number : Number → Value
    string : String → Value
    array : Values → Value
    object : Fields → Value

  pub data Values : Type 0 where
    nil : Values
    cons : Value → Values → Values

  pub data Fields : Type 0 where
    end : Fields
    field : String → Value → Fields → Fields

abbrev pub number_eq : Number → Number → Bool
number_eq (pos_int a) (pos_int b) = eqb a b
number_eq (neg_int a) (neg_int b) = eqb a b
number_eq (float a) (float b) = F64.eq a b
number_eq _ _ = false

abbrev bool_eq : Bool → Bool → Bool
bool_eq true b = b
bool_eq false true = false
bool_eq false false = true

unfoldable mutual
  pub value_eq : Value → Value → Bool
  value_eq null null = true
  value_eq (bool a) (bool b) = bool_eq a b
  value_eq (number a) (number b) = number_eq a b
  value_eq (string a) (string b) = a == b
  value_eq (array a) (array b) = values_eq a b
  value_eq (object a) (object b) = fields_eq a b
  value_eq _ _ = false

  pub values_eq : Values → Values → Bool
  values_eq nil nil = true
  values_eq (cons a as_rest) (cons b bs) = value_eq a b && values_eq as_rest bs
  values_eq _ _ = false

  pub fields_eq : Fields → Fields → Bool
  fields_eq end end = true
  fields_eq (field k a fs) (field j b gs) = (k == j) && value_eq a b && fields_eq fs gs
  fields_eq _ _ = false

-- `==` of two maps from keys to values, as sorted lists.
unfoldable pub map_eq : List (String × Value) → List (String × Value) → Bool
map_eq [] [] = true
map_eq ((k, a) ∷ m) ((j, b) ∷ n) = (k == j) && value_eq a b && map_eq m n
map_eq _ _ = false

-- `value.as_str()`, `value.as_u64()`
abbrev pub as_str : Value → Option String
as_str (string s) = some s
as_str _ = none

abbrev pub as_u64 : Value → Option ℕ
as_u64 (number (pos_int n)) = some n
as_u64 _ = none

-- `object.get(key)`
unfoldable pub get : String → Fields → Option Value
get key end = none
get key (field k v fs) = if k == key then some v else get key fs

abbrev pub as_array : Value → Option Values
as_array (array vs) = some vs
as_array _ = none

abbrev pub as_object : Value → Option Fields
as_object (object fs) = some fs
as_object _ = none
