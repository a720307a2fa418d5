-- ===== src/Substrate/Approval/Json/Unique.antt =====
-- The canonical form is determined by what each key is bound to.
use lmml.Base.{
  String, ◌≡◌, refl, sym, ap, ◌∙◌, subst, inl, inr, Bool, true, false, Option, none, some, arith,
  ◌==◌, eq_iff, if◌then◌else◌, Bool-cases,
}
use mathlib.Core.Option
use lmml.Base.Text.{text_lt}
use lmml.Substrate.Json.{Value, object, Fields, end, field, get}
use lmml.Substrate.Canonical.Order.{text_lt_irrefl, text_lt_total}
use lmml.Substrate.Approval.Json.{insert_field, canonical_value, collect_fields}
use lmml.Substrate.Approval.Json.Order.{
  IsAbove, AreCanonical, IsAbove-trans, collect_fields-AreCanonical,
}

abbrev pub or_else : Option Value → Option Value → Option Value
or_else none b = b
or_else (some a) b = some a

-- What the last entry of a key binds it to.
unfoldable pub last_bound : String → Fields → Option Value
last_bound key end = none
last_bound key (field k v fs) = or_else (last_bound key fs) (if k == key then some v else none)

or_else-map :
    (a b c : Option Value)
    → or_else (Option.map canonical_value a) (or_else (Option.map canonical_value b) c)
      ≡ or_else (Option.map canonical_value (or_else a b)) c
or_else-map none b c = refl
or_else-map (some v) b c = refl

pub get-insert_field :
    (key k : String) (v : Value) (fs : Fields)
    → get key (insert_field k v fs) ≡ (if k == key then some v else get key fs)
unfolding get insert_field
get-insert_field key k v end = refl
get-insert_field key k v (field i w fs) =
    ground (arith, eq_iff k i, eq_iff i key, eq_iff k key, get-insert_field key k v fs)

map-if :
    (b : Bool) (v : Value) (rest : Option Value)
    → (if b then some (canonical_value v) else rest)
      ≡ or_else (Option.map canonical_value (if b then some v else none)) rest
map-if true v rest = refl
map-if false v rest = refl

-- Collecting binds each key to the canonical form of its last value.
pub get-collect_fields :
    (key : String) (collected fs : Fields)
    → get key (collect_fields collected fs)
      ≡ or_else (Option.map canonical_value (last_bound key fs)) (get key collected)
unfolding canonical_value last_bound
get-collect_fields key collected end = refl
get-collect_fields key collected (field k v fs) =
    rw (get-collect_fields key (insert_field k (canonical_value v) collected) fs) (
      rw (get-insert_field key k (canonical_value v) collected) (
        rw (map-if (k == key) v (get key collected)) (
          or_else-map (last_bound key fs) (if k == key then some v else none) (get key collected))))

get-above : (key : String) (fs : Fields) → IsAbove key fs → AreCanonical fs → get key fs ≡ none
unfolding get
get-above key end h k = refl
get-above key (field i v fs) h k =
    ground
      (arith, eq_iff i key, text_lt_irrefl key, get-above key fs (IsAbove-trans key i fs h k.0) k.2)

get-head : (k : String) (v : Value) (fs : Fields) → get k (field k v fs) ≡ some v
unfolding get
get-head k v fs = ground (arith, eq_iff k k)

pub get-tail :
    (q k : String) (v : Value) (fs : Fields) → (k == q) ≡ false → get q (field k v fs) ≡ get q fs
unfolding get
get-tail q k v fs h = rw h refl

get-end : (key : String) → get key end ≡ none
unfolding get
get-end key = refl

first_keys :
    (i j : String) (v w : Value) (fs gs : Fields)
    → AreCanonical (field i v fs)
    → AreCanonical (field j w gs)
    → ((key : String) → get key (field i v fs) ≡ get key (field j w gs))
    → i ≡ j
first_keys i j v w fs gs h k same = elim (Bool-cases (text_lt i j)) [
  | inl e ↦ ground (arith, same i, get-head i v fs, get-above i (field j w gs) e k)
  | inr e ↦ elim (Bool-cases (i == j)) [
    | inl f ↦ (eq_iff i j).0 f
    | inr f ↦
        ground
          (arith, same j, get-head j w gs, get-above j (field i v fs) (text_lt_total i j e f) h)
  ]
]

same_tails :
    (i : String) (v w : Value) (fs gs : Fields)
    → AreCanonical (field i v fs)
    → AreCanonical (field i w gs)
    → ((key : String) → get key (field i v fs) ≡ get key (field i w gs))
    → (key : String) → get key fs ≡ get key gs
same_tails i v w fs gs h k same key = elim (Bool-cases (i == key)) [
  | inl e ↦
      let at : i ≡ key = (eq_iff i key).0 e in
      subst (λ q. get q fs ≡ get q gs) at (get-above i fs h.0 h.2 ∙ sym (get-above i gs k.0 k.2))
  | inr e ↦ sym (get-tail key i v fs e) ∙ same key ∙ get-tail key i w gs e
]

-- Two objects of ascending keys that bind the same keys to the same values are equal.
pub fields_ext :
    (fs gs : Fields)
    → AreCanonical fs
    → AreCanonical gs
    → ((key : String) → get key fs ≡ get key gs)
    → fs ≡ gs
fields_ext end end h k same = refl
fields_ext end (field j w gs) h k same = ground (arith, same j, get-head j w gs, get-end j)
fields_ext (field i v fs) end h k same = ground (arith, same i, get-head i v fs, get-end i)
fields_ext (field i v fs) (field j w gs) h k same =
    let keys = first_keys i j v w fs gs h k same in
    let k' : AreCanonical (field i w gs) = subst (λ q. AreCanonical (field q w gs)) (sym keys) k in
    let same' : (key : String) → get key (field i v fs) ≡ get key (field i w gs) =
      subst (λ q. (key : String) → get key (field i v fs) ≡ get key (field q w gs)) (sym keys)
        same in
    let values : v ≡ w = ground (arith, same' i, get-head i v fs, get-head i w gs) in
    let rest = fields_ext fs gs h.2 k'.2 (same_tails i v w fs gs h k' same') in cc

-- Whatever the order of the entries, two objects whose keys have the same values have one canonical
-- form, and so one text and one digest.
canonical_value_unique :
    (fs gs : Fields)
    → ((key : String) → last_bound key fs ≡ last_bound key gs)
    → canonical_value (object fs) ≡ canonical_value (object gs)
unfolding canonical_value
canonical_value_unique fs gs same = ap object (
    fields_ext (collect_fields end fs) (collect_fields end gs)
      (collect_fields-AreCanonical end fs tt) (collect_fields-AreCanonical end gs tt)
      λ key.
        get-collect_fields key end fs
        ∙ ap (λ b. or_else (Option.map canonical_value b) (get key end)) (same key)
        ∙ sym (get-collect_fields key end gs))
