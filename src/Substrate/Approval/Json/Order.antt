-- ===== src/Substrate/Approval/Json/Order.antt =====
-- Objects whose keys ascend, at every depth, and what a key is bound to.
use lmml.Base.{String, ◌≡◌, sym, subst, inl, inr, true, ◌==◌, eq_iff, Bool-cases}
use lmml.Base.Text.{text_lt}
use lmml.Substrate.Json.{
  Value, null, bool, number, string, array, object, Values, nil, cons, Fields, end, field,
}
use lmml.Substrate.Canonical.Order.{text_lt_trans, text_lt_total}
use lmml.Substrate.Approval.Json.{insert_field, canonical_value, canonical_values, collect_fields}

abbrev pub IsAbove : String → Fields → Type 0
IsAbove key end = Unit
IsAbove key (field k v fs) = text_lt key k ≡ true

abbrev mutual
  pub IsCanonical : Value → Type 0
  IsCanonical (object fs) = AreCanonical fs
  IsCanonical (array vs) = AllCanonical vs
  IsCanonical _ = Unit

  pub AllCanonical : Values → Type 0
  AllCanonical nil = Unit
  AllCanonical (cons v vs) = IsCanonical v × AllCanonical vs

  pub AreCanonical : Fields → Type 0
  AreCanonical end = Unit
  AreCanonical (field k v fs) = IsAbove k fs × IsCanonical v × AreCanonical fs

insert_field-IsAbove :
    (low key : String) (v : Value) (fs : Fields)
    → text_lt low key ≡ true
    → IsAbove low fs
    → IsAbove low (insert_field key v fs)
unfolding insert_field
insert_field-IsAbove low key v end h k = h
insert_field-IsAbove low key v (field i w fs) h k = elim (Bool-cases (text_lt key i)) [
  | inl e ↦ rw e h
  | inr e ↦ rw e (elim (Bool-cases (key == i)) [ inl f ↦ rw f h | inr f ↦ rw f k ])
]

pub IsAbove-trans :
    (low key : String) (fs : Fields) → text_lt low key ≡ true → IsAbove key fs → IsAbove low fs
IsAbove-trans low key end h k = tt
IsAbove-trans low key (field i w fs) h k = text_lt_trans low key i h k

pub insert_field-AreCanonical :
    (key : String) (v : Value) (fs : Fields)
    → IsCanonical v
    → AreCanonical fs
    → AreCanonical (insert_field key v fs)
unfolding insert_field
insert_field-AreCanonical key v end h k = (tt, h, tt)
insert_field-AreCanonical key v (field i w fs) h k = elim (Bool-cases (text_lt key i)) [
  | inl e ↦ rw e (e, h, k)
  | inr e ↦ rw e (elim (Bool-cases (key == i)) [
    | inl f ↦
        let same : key ≡ i = (eq_iff key i).0 f in
        rw f (subst (λ q. IsAbove q fs) (sym same) k.0, h, k.2)
    | inr f ↦ rw f (
      insert_field-IsAbove i key v fs (text_lt_total key i e f) k.0,
      k.1,
      insert_field-AreCanonical key v fs h k.2,
    )
  ])
]

mutual
  unfolding canonical_value

  pub canonical_value-IsCanonical : (v : Value) → IsCanonical (canonical_value v)
  canonical_value-IsCanonical (object fs) = collect_fields-AreCanonical end fs tt
  canonical_value-IsCanonical (array vs) = canonical_values-AllCanonical vs
  canonical_value-IsCanonical null = tt
  canonical_value-IsCanonical (bool b) = tt
  canonical_value-IsCanonical (number n) = tt
  canonical_value-IsCanonical (string s) = tt

  canonical_values-AllCanonical : (vs : Values) → AllCanonical (canonical_values vs)
  canonical_values-AllCanonical nil = tt
  canonical_values-AllCanonical (cons v vs) =
      (canonical_value-IsCanonical v, canonical_values-AllCanonical vs)

  pub collect_fields-AreCanonical :
      (collected fs : Fields) → AreCanonical collected → AreCanonical (collect_fields collected fs)
  collect_fields-AreCanonical collected end h = h
  collect_fields-AreCanonical collected (field k v fs) h =
      collect_fields-AreCanonical (insert_field k (canonical_value v) collected) fs (
        insert_field-AreCanonical k (canonical_value v) collected (canonical_value-IsCanonical v) h)
