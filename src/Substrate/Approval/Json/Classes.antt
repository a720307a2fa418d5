-- ===== src/Substrate/Approval/Json/Classes.antt =====
-- The meanings of JSON values, as classes of values, and their canonical forms.
use mathlib.Core.Quot
use mathlib.Core.Quot.{Quot, Quot-set}
use native.Mathlib.Nat.{ℕ_set}
use text.Mathlib.TextEquality.{IsScalar-prop}
use mathlib.Core.HLevel.{prop→set}
use lmml.Base.{String, ◌≡◌, sym, ap, ◌∙◌, subst, ◌↔◌}
use lmml.Substrate.Json.{Value}
use lmml.Substrate.Approval.Json.{canonical_value}
use lmml.Substrate.Approval.Json.Order.{IsCanonical, canonical_value-IsCanonical}
use lmml.Substrate.Approval.Json.Fixed.{canonical_value-fixed}
use lmml.Substrate.Approval.Json.Meaning.{
  Same, back, chain, canonical_value-Same, Same-canonical_value,
}

String-set : IsSet String
String-set = hlevel (IsScalar-prop, ℕ_set, prop→set)

Value-set : IsSet Value
Value-set = hlevel (String-set, ℕ_set)

-- Two values have one canonical form exactly where they mean the same: one is got from the other,
-- at any depth, by exchanging neighbouring entries with different keys, and by leaving out an entry
-- that is followed by one with its key or putting it back.
pub canonical_value_iff : (v w : Value) → (canonical_value v ≡ canonical_value w) ↔ Same v w
canonical_value_iff v w = (
  (λ e.
      chain (canonical_value-Same v)
        (subst (λ u. Same u w) (sym e) (back (canonical_value-Same w)))),
  Same-canonical_value v w,
)

abbrev pub Meaning : Type 0
Meaning = Quot Same

-- The canonical form of a meaning.
abbrev canonical : Meaning → Value
canonical = Quot.lift Value-set canonical_value Same-canonical_value

-- The canonical form of a value is the one value of its class in which the keys of every object
-- ascend: it is such a value, it means the same as the given one, and any such value that means the
-- same is equal to it. A class is a point of the quotient of the values by having the same meaning.
pub unique_representative :
    (v : Value)
    → IsCanonical (canonical_value v)
      × (◌≡◌ {A = Meaning} (Quot.mk (canonical_value v)) (Quot.mk v))
      × ((w : Value)
          → IsCanonical w
          → ◌≡◌ {A = Meaning} (Quot.mk w) (Quot.mk v)
          → w ≡ canonical_value v)
unique_representative v = (
  canonical_value-IsCanonical v,
  Quot.sound (back (canonical_value-Same v)),
  λ w h e. sym (canonical_value-fixed w h) ∙ ap canonical e,
)
