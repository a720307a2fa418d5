-- ===== src/Router/Access.antt =====
-- Who may use the protected routes: `authorize` and `constant_time_eq` of
-- crates/lmml-router/src/lib.rs.
use Prim.Native.Nat.{bit_or, bit_xor}
use lmml.Base.{
  ℕ, String, ◌≡◌, refl, ap, subst, ◌↔◌, ◌⊎◌, inl, inr, Bool, true, false, not, ◌||◌, Option, none,
  some, List, [], ◌∷◌, arith, eqb, if◌then◌else◌, Bool-cases, Option-cases, unwrap_or, length,
  Result, ok, err,
}
use lmml.Base.Bits.{bit_or-zero, bit_xor-zero, bit_xor_self}
use lmml.Base.Text.{utf8, strip_prefix}
use lmml.Router.Types.{RouterConfig, ApiFailure}
use lmml.Router.Config.{api_key}

-- `headers.get(name).and_then(|value| value.to_str().ok())`: the first value under the name, if it is
-- a text.
abbrev pub Headers : Type 0
Headers = String → Option String

-- The fold over the zipped bytes.
unfoldable pub fold_diff : ℕ → List ℕ → List ℕ → ℕ
fold_diff diff [] right = diff
fold_diff diff (a ∷ left) [] = diff
fold_diff diff (a ∷ left) (b ∷ right) = fold_diff (bit_or diff (bit_xor a b)) left right

unfoldable pub constant_time_eq : List ℕ → List ℕ → Bool
unfolding fold_diff
constant_time_eq left right =
    if not (eqb (length left) (length right)) then false else eqb (fold_diff 0 left right) 0

-- The token after `Bearer `, and the text of `x-api-key`; both empty where missing.
unfoldable pub bearer_token : Headers → String
unfolding strip_prefix
bearer_token headers =
    unwrap_or (strip_prefix "Bearer " (unwrap_or (headers "authorization") "")) ""

abbrev pub api_key_header : Headers → String
api_key_header headers = unwrap_or (headers "x-api-key") ""

abbrev pub unauthorized : ApiFailure
unauthorized = record {
  status = 401;
  code = "unauthorized";
  message = "missing or invalid bearer token";
  request_id = none;
}

unfoldable pub authorize : RouterConfig → Headers → Result ApiFailure (Unit {0})
unfolding constant_time_eq
authorize config headers = elim (api_key config) [
  | none ↦ ok tt
  | some expected ↦
      if constant_time_eq (utf8 (bearer_token headers)) (utf8 expected)
        || constant_time_eq (utf8 (api_key_header headers)) (utf8 expected)
      then ok tt
      else err unauthorized
]

fold_diff-zero :
    (diff : ℕ) (left right : List ℕ)
    → length left ≡ length right
    → (fold_diff diff left right ≡ 0) ↔ ((diff ≡ 0) × (left ≡ right))
unfolding fold_diff
fold_diff-zero diff [] [] same = ((λ h. (h, refl)), λ h. h.0)
fold_diff-zero diff [] (b ∷ right) same = absurd (omega (arith, same))
fold_diff-zero diff (a ∷ left) [] same = absurd (omega (arith, same))
fold_diff-zero diff (a ∷ left) (b ∷ right) same =
    let (forth, back) =
      fold_diff-zero (bit_or diff (bit_xor a b)) left right (omega (arith, same)) in
    (
      (λ h.
          let (bits, rest) = forth h in
          let (old, new) = bit_or-zero diff (bit_xor a b) bits in
          (old, rw (bit_xor-zero a b new) (rw rest refl))),
      (λ h. back (none_differ h.0 h.1)),
    )
  where
    none_differ : diff ≡ 0 → a ∷ left ≡ b ∷ right → (bit_or diff (bit_xor a b) ≡ 0) × (left ≡ right)
    none_differ old h =
        let first : a ≡ b = ground (arith, h) in
        let alike : bit_xor a b ≡ 0 = subst (λ x. bit_xor a x ≡ 0) first (bit_xor_self a) in
        (rw old (rw alike refl), ground (arith, h))

pub constant_time_eq_iff :
    (left right : List ℕ) → (constant_time_eq left right ≡ true) ↔ (left ≡ right)
unfolding constant_time_eq
constant_time_eq_iff left right = elim (Bool-cases (eqb (length left) (length right))) [
  | inl e ↦
      let same : length left ≡ length right = ground (arith, e) in
      let (forth, back) = fold_diff-zero 0 left right same in
      (
        (λ h. (forth (ground (arith, e, h))).1),
        (λ h. let zero_diff = back (refl, h) in ground (arith, e, zero_diff)),
      )
  | inr e ↦ ((λ h. absurd (ground (arith, e, h))), (λ h. absurd (differing e h)))
]
  where
    differing : eqb (length left) (length right) ≡ false → left ≡ right → ⊥
    differing e h = let same : length left ≡ length right = ap length h in ground (arith, e, same)

-- A request is let through exactly where the router has no key, or the bearer token or the key in
-- `x-api-key` has the same bytes as the router's key.
pub authorize_iff :
    (config : RouterConfig) (headers : Headers)
    → (authorize config headers ≡ ok tt) ↔ (
        (expected : String)
        → api_key config ≡ some expected
        → (utf8 (bearer_token headers) ≡ utf8 expected)
          ⊎ (utf8 (api_key_header headers) ≡ utf8 expected))
unfolding authorize
authorize_iff config headers = elim (Option-cases (api_key config)) [
  | inl e ↦ ((λ h expected f. absurd (ground (arith, e, f))), (λ h. ground (arith, e)))
  | inr (key, e) ↦ (
    (λ h expected f.
        let same : key ≡ expected = ground (arith, e, f) in
        subst
          (λ x. (utf8 (bearer_token headers) ≡ utf8 x) ⊎ (utf8 (api_key_header headers) ≡ utf8 x))
          same (matching key e h)),
    (λ h. elim (h key e) [
      | inl f ↦ let one = (constant_time_eq_iff _ _).1 f in ground (arith, e, one)
      | inr f ↦ let one = (constant_time_eq_iff _ _).1 f in ground (arith, e, one)
    ]),
  )
]
  where
    matching :
        (key : String)
        → api_key config ≡ some key
        → authorize config headers ≡ ok tt
        → (utf8 (bearer_token headers) ≡ utf8 key) ⊎ (utf8 (api_key_header headers) ≡ utf8 key)
    matching key e h =
        elim (Bool-cases (constant_time_eq (utf8 (bearer_token headers)) (utf8 key))) [
          | inl f ↦ inl ((constant_time_eq_iff _ _).0 f)
          | inr f ↦ inr ((constant_time_eq_iff _ _).0 (ground (arith, e, h, f)))
        ]
