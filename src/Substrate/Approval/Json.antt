-- ===== src/Substrate/Approval/Json.antt =====
-- `canonical_value` of crates/lmml-substrate/src/approval.rs: the keys of every object in order. A
-- `BTreeMap` is collected by inserting one entry after the other, and a later one replaces an earlier.
pub mod Order
pub mod Unique
pub mod Fixed
pub mod Meaning
pub mod Classes
use lmml.Base.{◌-◌, ◌/◌, String, ◌≡◌, refl, ◌==◌, if◌then◌else◌}
use lmml.Base.Text.{text_lt}
use lmml.Substrate.Json.{
  Value, null, bool, number, string, array, object, Values, nil, cons, Fields, end, field,
}

unfoldable pub insert_field : String → Value → Fields → Fields
insert_field key v end = field key v end
insert_field key v (field k w fs) =
    let rest = insert_field key v fs in
    if text_lt key k
    then field key v (field k w fs)
    else if key == k
    then field key v fs
    else field k w rest

unfoldable mutual
  unfolding insert_field

  pub canonical_value : Value → Value
  canonical_value (object fs) = object (collect_fields end fs)
  canonical_value (array vs) = array (canonical_values vs)
  canonical_value null = null
  canonical_value (bool b) = bool b
  canonical_value (number n) = number n
  canonical_value (string s) = string s

  pub canonical_values : Values → Values
  canonical_values nil = nil
  canonical_values (cons v vs) = cons (canonical_value v) (canonical_values vs)

  pub collect_fields : (collected : Fields) → Fields → Fields
  collect_fields collected end = collected
  collect_fields collected (field k v fs) =
      collect_fields (insert_field k (canonical_value v) collected) fs

reorder :
    canonical_value (object (field "b" null (field "a" null end)))
    ≡ object (field "a" null (field "b" null end))
unfolding canonical_value text_lt
reorder = refl
