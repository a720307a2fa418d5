-- ===== src/Base/Maps.antt =====
-- `BTreeMap<String, A>` as its entries in the order of the keys.
use Prim.Native.String.{String}
use mathlib.Core.Path.{◌≡◌, refl}
use mathlib.Core.Bool.{false}
use mathlib.Core.Option.{Option, none, some}
use mathlib.Core.List.{List, [], ◌∷◌}
use mathlib.Core.Logic.{inl, inr}
use native.Mathlib.Omega.{arith}
use text.Mathlib.Text.{◌==◌}
use text.Mathlib.TextEquality.{eq_iff}
use package.lmml.Base.Tests.{if◌then◌else◌, is_some, Bool-cases, Option-cases}
use package.lmml.Base.Text.{text_lt}

abbrev pub Map : Type 0 → Type 0
Map A = List (String × A)

module _ {A : Type 0} where
  -- `map.get(key)`
  abbrev pub lookup : String → Map A → Option A
  lookup key [] = none
  lookup key ((k, a) ∷ m) = if k == key then some a else lookup key m

  -- `if let Some(value) = map.get_mut(key) { *value = f(*value) }`
  unfoldable pub adjust : (A → A) → String → Map A → Map A
  adjust f key [] = []
  adjust f key ((k, a) ∷ m) = if k == key then (k, f a) ∷ m else (k, a) ∷ adjust f key m

  -- `map.insert(key, value)` of a key that is not there.
  unfoldable pub insert_new : String → A → Map A → Map A
  insert_new key a [] = (key, a) ∷ []
  insert_new key a ((k, b) ∷ m) =
      if text_lt key k then (key, a) ∷ (k, b) ∷ m else (k, b) ∷ insert_new key a m

  -- `map.insert(key, value)`, and `*map.entry(key).or_insert(default) = f(…)`
  unfoldable pub upsert : (A → A) → A → String → Map A → Map A
  unfolding adjust insert_new
  upsert f default key m =
      if is_some (lookup key m) then adjust f key m else insert_new key (f default) m

  pub lookup-adjust_self :
      (f : A → A) (key : String) (m : Map A) (a : A)
      → lookup key m ≡ some a
      → lookup key (adjust f key m) ≡ some (f a)
  unfolding adjust
  lookup-adjust_self f key [] a h = cc
  lookup-adjust_self f key ((k, b) ∷ m) a h = elim (Bool-cases (k == key)) [
    | inl e ↦ let same : b ≡ a = ground (arith, e, h) in rw e (rw e (rw same refl))
    | inr e ↦ rw e (rw e (lookup-adjust_self f key m a (ground (arith, e, h))))
  ]

  pub lookup-adjust_other :
      (f : A → A) (key q : String) (m : Map A)
      → key == q ≡ false
      → lookup q (adjust f key m) ≡ lookup q m
  unfolding adjust
  lookup-adjust_other f key q [] h = refl
  lookup-adjust_other f key q ((k, b) ∷ m) h =
      ground (arith, h, eq_iff k key, eq_iff k q, eq_iff key q, lookup-adjust_other f key q m h)

  pub lookup-adjust-none :
      (f : A → A) (key : String) (m : Map A)
      → lookup key m ≡ none
      → lookup key (adjust f key m) ≡ none
  unfolding adjust
  lookup-adjust-none f key [] h = refl
  lookup-adjust-none f key ((k, b) ∷ m) h =
      ground (arith, h, eq_iff k key, lookup-adjust-none f key m)

  lookup-insert_new :
      (key q : String) (a : A) (m : Map A)
      → lookup key m ≡ none
      → lookup q (insert_new key a m) ≡ (if key == q then some a else lookup q m)
  unfolding insert_new
  lookup-insert_new key q a [] h = ground arith
  lookup-insert_new key q a ((k, b) ∷ m) h =
      ground (arith, h, eq_iff k key, eq_iff k q, eq_iff key q, lookup-insert_new key q a m)

  -- What an update leaves under each key.
  pub lookup-upsert_self :
      (f : A → A) (default : A) (key : String) (m : Map A) (a : A)
      → lookup key m ≡ some a
      → lookup key (upsert f default key m) ≡ some (f a)
  unfolding upsert
  lookup-upsert_self f default key m a h = rw h (lookup-adjust_self f key m a h)

  pub lookup-upsert_new :
      (f : A → A) (default : A) (key : String) (m : Map A)
      → lookup key m ≡ none
      → lookup key (upsert f default key m) ≡ some (f default)
  unfolding upsert
  lookup-upsert_new f default key m h =
      rw h (rw (lookup-insert_new key key (f default) m h) (rw ((eq_iff key key).1 refl) refl))

  pub lookup-upsert_other :
      (f : A → A) (default : A) (key q : String) (m : Map A)
      → key == q ≡ false
      → lookup q (upsert f default key m) ≡ lookup q m
  unfolding upsert
  lookup-upsert_other f default key q m h = elim (Option-cases (lookup key m)) [
    | inl e ↦ rw e (rw (lookup-insert_new key q (f default) m e) (rw h refl))
    | inr (a, e) ↦ rw e (lookup-adjust_other f key q m h)
  ]

-- `set.insert(text)` of a `BTreeSet<String>`, as the list of its elements in ascending order.
unfoldable pub insert_text : String → List String → List String
insert_text text [] = text ∷ []
insert_text text (other ∷ texts) =
    let rest = insert_text text texts in
    if text_lt text other
    then text ∷ other ∷ texts
    else if text == other
    then other ∷ texts
    else other ∷ rest
