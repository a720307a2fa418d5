-- ===== src/Substrate/Approval/Json/Fixed.antt =====
-- Canonical values stay as they are.
use mathlib.Core.Option
use lmml.Base.{
  String, ◌≡◌, refl, sym, ap, ◌∙◌, subst, inl, inr, false, Option, none, some, arith, ◌==◌, eq_iff,
  Bool-cases,
}
use lmml.Substrate.Json.{
  Value, null, bool, number, string, array, object, Values, nil, cons, Fields, end, field, get,
}
use lmml.Substrate.Canonical.Order.{text_lt_irrefl}
use lmml.Substrate.Approval.Json.{canonical_value, canonical_values, collect_fields}
use lmml.Substrate.Approval.Json.Order.{
  IsAbove, IsCanonical, AllCanonical, AreCanonical, IsAbove-trans, canonical_value-IsCanonical,
  collect_fields-AreCanonical,
}
use lmml.Substrate.Approval.Json.Unique.{
  or_else, last_bound, get-collect_fields, get-tail, fields_ext,
}

or_else-none : (a : Option Value) → or_else a none ≡ a
or_else-none none = refl
or_else-none (some v) = refl

last_bound-above :
    (key : String) (fs : Fields) → IsAbove key fs → AreCanonical fs → last_bound key fs ≡ none
unfolding last_bound
last_bound-above key end h k = refl
last_bound-above key (field i v fs) h k = ground (
  arith,
  eq_iff i key,
  text_lt_irrefl key,
  last_bound-above key fs (IsAbove-trans key i fs h k.0) k.2,
)

abbrev bound : String → Fields → Option Value
bound key fs = or_else (Option.map canonical_value (last_bound key fs)) (get key end)

bound-end : (key : String) → bound key end ≡ get key end
unfolding last_bound get
bound-end key = refl

skip_other :
    (key k : String) (v : Value) (fs : Fields)
    → (k == key) ≡ false
    → last_bound key (field k v fs) ≡ last_bound key fs
unfolding last_bound
skip_other key k v fs e = rw e (or_else-none (last_bound key fs))

bound-field :
    (key k : String) (v : Value) (fs : Fields)
    → AreCanonical (field k v fs)
    → canonical_value v ≡ v
    → bound key fs ≡ get key fs
    → bound key (field k v fs) ≡ get key (field k v fs)
unfolding last_bound get
bound-field key k v fs h same rest = elim (Bool-cases (k == key)) [
  | inl e ↦
      let at : k ≡ key = (eq_iff k key).0 e in
      let none_left : last_bound key fs ≡ none =
        last_bound-above key fs (subst (λ q. IsAbove q fs) at h.0) h.2 in
      rw e (rw none_left (ap some same))
  | inr e ↦
      ap (λ b. or_else (Option.map canonical_value b) (get key end)) (skip_other key k v fs e)
      ∙ rest
      ∙ sym (get-tail key k v fs e)
]

mutual
  unfolding canonical_value

  -- What is canonical already stays as it is.
  pub canonical_value-fixed : (v : Value) → IsCanonical v → canonical_value v ≡ v
  canonical_value-fixed (object fs) h = ap object (
      fields_ext (collect_fields end fs) fs (collect_fields-AreCanonical end fs tt) h
        λ key. get-collect_fields key end fs ∙ bound_canonical key fs h)
  canonical_value-fixed (array vs) h = ap array (canonical_values-fixed vs h)
  canonical_value-fixed null h = refl
  canonical_value-fixed (bool b) h = refl
  canonical_value-fixed (number n) h = refl
  canonical_value-fixed (string s) h = refl

  canonical_values-fixed : (vs : Values) → AllCanonical vs → canonical_values vs ≡ vs
  canonical_values-fixed nil h = refl
  canonical_values-fixed (cons v vs) h =
      let head = canonical_value-fixed v h.0 in let tail = canonical_values-fixed vs h.1 in cc

  bound_canonical : (key : String) (fs : Fields) → AreCanonical fs → bound key fs ≡ get key fs
  bound_canonical key end h = bound-end key
  bound_canonical key (field k v fs) h =
      bound-field key k v fs h (canonical_value-fixed v h.1) (bound_canonical key fs h.2)

-- The keys of the canonical form ascend in every object at every depth, and making it canonical
-- again changes nothing.
canonical_value_stable :
    (v : Value)
    → IsCanonical (canonical_value v) × (canonical_value (canonical_value v) ≡ canonical_value v)
canonical_value_stable v =
    let ascending = canonical_value-IsCanonical v in
    (ascending, canonical_value-fixed (canonical_value v) ascending)
