-- ===== src/Substrate/Approval/Json/Meaning.antt =====
-- What a JSON value means: the order of the entries of an object does not matter, and of two entries with
-- one key the later counts.
use lmml.Base.{
  String, ◌≡◌, ◌≢◌, refl, sym, ap, ◌∙◌, subst, inl, inr, Bool, true, false, some, arith, ◌==◌,
  eq_iff, if◌then◌else◌, Bool-cases,
}
use lmml.Base.Text.{text_lt}
use lmml.Substrate.Json.{
  Value, null, bool, number, string, array, object, Values, nil, cons, Fields, end, field, get,
}
use lmml.Substrate.Canonical.Order.{text_lt_irrefl}
use lmml.Substrate.Approval.Json.{insert_field, canonical_value, canonical_values, collect_fields}
use lmml.Substrate.Approval.Json.Order.{
  IsAbove, IsCanonical, AreCanonical, IsAbove-trans, insert_field-AreCanonical,
  canonical_value-IsCanonical,
}
use lmml.Substrate.Approval.Json.Unique.{get-insert_field, fields_ext}

mutual
  pub data Same : Value → Value → Type 0 where
    same : {v : Value} → Same v v
    back : {v w : Value} → Same v w → Same w v
    chain : {u v w : Value} → Same u v → Same v w → Same u w
    in_array : {vs ws : Values} → SameValues vs ws → Same (array vs) (array ws)
    in_object : {fs gs : Fields} → SameFields fs gs → Same (object fs) (object gs)

  pub data SameValues : Values → Values → Type 0 where
    none_left : SameValues nil nil
    each :
        {v w : Value} {vs ws : Values}
        → Same v w
        → SameValues vs ws
        → SameValues (cons v vs) (cons w ws)

  pub data SameFields : Fields → Fields → Type 0 where
    same_fields : {fs : Fields} → SameFields fs fs
    fields_back : {fs gs : Fields} → SameFields fs gs → SameFields gs fs
    fields_chain : {fs gs hs : Fields} → SameFields fs gs → SameFields gs hs → SameFields fs hs
    swap :
        {i k : String} {v w : Value} {fs : Fields}
        → i ≢ k
        → SameFields (field i v (field k w fs)) (field k w (field i v fs))
    overridden :
        {k : String} {v w : Value} {fs : Fields}
        → SameFields (field k v (field k w fs)) (field k w fs)
    entry :
        {k : String} {v w : Value} {fs gs : Fields}
        → Same v w
        → SameFields fs gs
        → SameFields (field k v fs) (field k w gs)

abbrev append_fields : Fields → Fields → Fields
append_fields end gs = gs
append_fields (field k v fs) gs = field k v (append_fields fs gs)

append_fields-end : (fs : Fields) → append_fields fs end ≡ fs
append_fields-end end = refl
append_fields-end (field k v fs) = ap (field k v) (append_fields-end fs)

not_below : (k i : String) → text_lt k i ≡ true → i ≢ k
not_below k i h e = ground (arith, text_lt_irrefl k, h, e)

-- An entry moves to the front of entries with greater keys.
bubble :
    (k : String) (v w : Value) (c fs : Fields)
    → IsAbove k c
    → AreCanonical c
    → Same v w
    → SameFields (append_fields c (field k v fs)) (field k w (append_fields c fs))
bubble k v w end fs above h s = entry s same_fields
bubble k v w (field i u c) fs above h s =
    fields_chain (entry same (bubble k v w c fs (IsAbove-trans k i c above h.0) h.2 s))
      (swap (not_below k i above))

-- Inserting an entry among sorted ones leaves the meaning.
inserted :
    (k : String) (v w : Value) (c fs : Fields)
    → AreCanonical c
    → Same v w
    → SameFields (append_fields c (field k v fs)) (append_fields (insert_field k w c) fs)
unfolding insert_field
inserted k v w end fs h s = entry s same_fields
inserted k v w (field i u c) fs h s = elim (Bool-cases (text_lt k i)) [
  | inl e ↦ rw e (bubble k v w (field i u c) fs e h s)
  | inr e ↦ rw e (elim (Bool-cases (k == i)) [
    | inl f ↦
        let at : i ≡ k = sym ((eq_iff k i).0 f) in
        rw f (
          fields_chain (entry same (bubble k v w c fs (subst (λ q. IsAbove q c) at h.0) h.2 s)) (
            subst
              (λ q.
                SameFields (field q u (field k w (append_fields c fs)))
                  (field k w (append_fields c fs)))
              (sym at) overridden))
    | inr f ↦ rw f (entry same (inserted k v w c fs h.2 s))
  ])
]

mutual
  unfolding canonical_value

  -- A value means what its canonical form means.
  pub canonical_value-Same : (v : Value) → Same v (canonical_value v)
  canonical_value-Same (object fs) = in_object (collect_fields-Same end fs tt)
  canonical_value-Same (array vs) = in_array (canonical_values-Same vs)
  canonical_value-Same null = same
  canonical_value-Same (bool b) = same
  canonical_value-Same (number n) = same
  canonical_value-Same (string s) = same

  canonical_values-Same : (vs : Values) → SameValues vs (canonical_values vs)
  canonical_values-Same nil = none_left
  canonical_values-Same (cons v vs) = each (canonical_value-Same v) (canonical_values-Same vs)

  collect_fields-Same :
      (c fs : Fields) → AreCanonical c → SameFields (append_fields c fs) (collect_fields c fs)
  collect_fields-Same c end h = subst (λ q. SameFields q c) (sym (append_fields-end c)) same_fields
  collect_fields-Same c (field k v fs) h =
      fields_chain (inserted k v (canonical_value v) c fs h (canonical_value-Same v)) (
        collect_fields-Same (insert_field k (canonical_value v) c) fs
          (insert_field-AreCanonical k (canonical_value v) c (canonical_value-IsCanonical v) h))

if_swap :
    {A : Type 0} (a b : Bool) (x y z : A)
    → (a ≡ true → b ≡ true → ⊥)
    → (if a then x else if b then y else z) ≡ (if b then y else if a then x else z)
if_swap true true x y z h = absurd (h refl refl)
if_swap true false x y z h = refl
if_swap false b x y z h = refl

if_twice :
    {A : Type 0} (a : Bool) (x y z : A)
    → (if a then x else if a then y else z) ≡ (if a then x else z)
if_twice true x y z = refl
if_twice false x y z = refl

-- Two entries inserted, by what keys are bound to.
two_inserted :
    (key i k : String) (v w : Value) (c : Fields)
    → get key (insert_field i v (insert_field k w c))
      ≡ (if i == key then some v else if k == key then some w else get key c)
two_inserted key i k v w c =
    rw (get-insert_field key i v (insert_field k w c)) (rw (get-insert_field key k w c) refl)

insert_swap :
    (i k : String) (v w : Value) (c : Fields)
    → i ≢ k
    → IsCanonical v
    → IsCanonical w
    → AreCanonical c
    → insert_field k w (insert_field i v c) ≡ insert_field i v (insert_field k w c)
insert_swap i k v w c apart hv hw h =
    fields_ext _ _ (insert_field-AreCanonical k w _ hw (insert_field-AreCanonical i v c hv h))
      (insert_field-AreCanonical i v _ hv (insert_field-AreCanonical k w c hw h))
      λ key.
        two_inserted key k i w v c
        ∙ if_swap (k == key) (i == key) (some w) (some v) (get key c)
            (λ e f. apart ((eq_iff i key).0 f ∙ sym ((eq_iff k key).0 e)))
        ∙ sym (two_inserted key i k v w c)

insert_over :
    (k : String) (v w : Value) (c : Fields)
    → IsCanonical v
    → IsCanonical w
    → AreCanonical c
    → insert_field k w (insert_field k v c) ≡ insert_field k w c
insert_over k v w c hv hw h =
    fields_ext _ _ (insert_field-AreCanonical k w _ hw (insert_field-AreCanonical k v c hv h))
      (insert_field-AreCanonical k w c hw h)
      λ key.
        two_inserted key k k w v c
        ∙ if_twice (k == key) (some w) (some v) (get key c)
        ∙ sym (get-insert_field key k w c)

mutual
  unfolding canonical_value

  -- Values that mean the same have one canonical form.
  pub Same-canonical_value : (v w : Value) → Same v w → canonical_value v ≡ canonical_value w
  Same-canonical_value v w same = refl
  Same-canonical_value v w (back s) = sym (Same-canonical_value w v s)
  Same-canonical_value v w (chain {v = u} s t) =
      Same-canonical_value v u s ∙ Same-canonical_value u w t
  Same-canonical_value (array vs) (array ws) (in_array s) = ap array (same_values vs ws s)
  Same-canonical_value (object fs) (object gs) (in_object s) =
      ap object (same_collected fs gs s end tt)

  same_values : (vs ws : Values) → SameValues vs ws → canonical_values vs ≡ canonical_values ws
  same_values nil nil none_left = refl
  same_values nil (cons w ws) s = elim s [ ]
  same_values (cons v vs) nil s = elim s [ ]
  same_values (cons v vs) (cons w ws) (each s t) =
      let head = Same-canonical_value v w s in let tail = same_values vs ws t in cc

  same_collected :
      (fs gs : Fields)
      → SameFields fs gs
      → (c : Fields) → AreCanonical c
      → collect_fields c fs ≡ collect_fields c gs
  same_collected fs gs same_fields c h = refl
  same_collected fs gs (fields_back s) c h = sym (same_collected gs fs s c h)
  same_collected fs gs (fields_chain {gs = hs} s t) c h =
      same_collected fs hs s c h ∙ same_collected hs gs t c h
  same_collected _ _ (swap {i} {k} {v} {w} {fs} apart) c h =
      ap (λ d. collect_fields d fs)
        (insert_swap i k (canonical_value v) (canonical_value w) c apart
          (canonical_value-IsCanonical v) (canonical_value-IsCanonical w) h)
  same_collected _ _ (overridden {k} {v} {w} {fs}) c h =
      ap (λ d. collect_fields d fs)
        (insert_over k (canonical_value v) (canonical_value w) c (canonical_value-IsCanonical v)
          (canonical_value-IsCanonical w) h)
  same_collected _ _ (entry {k} {v} {w} {fs} {gs} s t) c h =
      ap (λ u. collect_fields (insert_field k u c) fs) (Same-canonical_value v w s)
      ∙ same_collected fs gs t (insert_field k (canonical_value w) c)
          (insert_field-AreCanonical k (canonical_value w) c (canonical_value-IsCanonical w) h)
