-- ===== src/Substrate/Checks/Inventory.antt =====
-- The trainable inventory: what `validate_trainable_inventory` of
-- crates/lmml-substrate/src/lifecycle.rs lets through.
use lmml.Base.{
  String, true, false, ◌≡◌, ◌≢◌, refl, arith, ok, List, [], ◌∷◌, In, here, there, Pairwise, any-In,
  eq_iff,
}
use lmml.Base.Text.{mem_text}
use lmml.Substrate.Checks.{
  matches_allowlist, is_lora_parameter_name, check_parameters, validate_trainable_inventory,
}

pub mem_text-In :
    (s : String) (ts : List String) → mem_text s ts ≡ false → (t : String) → In t ts → s ≢ t
mem_text-In s [] h t i = elim i [ ]
mem_text-In s (u ∷ ts) h t (here e) = λ same. ground (arith, eq_iff s u, same, e)
mem_text-In s (u ∷ ts) h t (there i) = mem_text-In s ts (ground arith) t i

-- What is asked of one parameter.
abbrev IsTrainable : List String → String → Type 0
IsTrainable approved_allowlist parameter =
    (parameter ≢ "")
    × (is_lora_parameter_name parameter ≡ true)
    × ((allowed : String) × In allowed approved_allowlist
        × (matches_allowlist parameter allowed ≡ true))

check_parameters-lem :
    (approved seen parameters : List String)
    → check_parameters approved seen parameters ≡ ok tt
    → Pairwise (λ a b. a ≢ b) parameters
      × ((a b : String) → In a seen → In b parameters → a ≢ b)
      × ((a : String) → In a parameters → IsTrainable approved a)
unfolding check_parameters
check_parameters-lem approved seen [] h = (tt, (λ a b i j. elim j [ ]), λ a i. elim i [ ])
check_parameters-lem approved seen (parameter ∷ rest) h =
    let (apart, unseen, each) =
      check_parameters-lem approved (parameter ∷ seen) rest (ground (arith, h)) in
    let new : mem_text parameter seen ≡ false = ground (arith, h) in
    (
      ((λ b j. unseen parameter b (here refl) j), apart),
      (λ a b i j. fresh a b i j new unseen),
      (λ a i.
          one a i
            (
              (λ e. ground (arith, h, e, (eq_iff parameter "").1 e)),
              ground (arith, h),
              (let (x, i, e) =
                    any-In (λ allowed. matches_allowlist parameter allowed) approved
                      (ground (arith, h)) in
                  (x, i, e)),
            )
            each),
    )
  where
    fresh :
        (a b : String)
        → In a seen
        → In b (parameter ∷ rest)
        → mem_text parameter seen ≡ false
        → ((a b : String) → In a (parameter ∷ seen) → In b rest → a ≢ b)
        → a ≢ b
    fresh a b i (here e) new unseen =
        λ same. mem_text-In parameter seen new a i (ground (arith, e, same))
    fresh a b i (there j) new unseen = unseen a b (there i) j

    one :
        (a : String)
        → In a (parameter ∷ rest)
        → IsTrainable approved parameter
        → ((a : String) → In a rest → IsTrainable approved a)
        → IsTrainable approved a
    one a (here e) first others = rw e first
    one a (there i) first others = others a i

-- The parameters that an accepted inventory trains are all different, and each is a LoRA parameter
-- that some entry of the allowlist covers.
pub validate_trainable_inventory-IsTrainable :
    (approved_allowlist trainable_parameters : List String)
    → validate_trainable_inventory approved_allowlist trainable_parameters ≡ ok tt
    → Pairwise (λ a b. a ≢ b) trainable_parameters
      × ((parameter : String)
          → In parameter trainable_parameters
          → (is_lora_parameter_name parameter ≡ true)
            × ((allowed : String) × In allowed approved_allowlist
                × (matches_allowlist parameter allowed ≡ true)))
unfolding validate_trainable_inventory
validate_trainable_inventory-IsTrainable approved_allowlist trainable_parameters h =
    let (apart, unseen, each) =
      check_parameters-lem approved_allowlist [] trainable_parameters (ground (arith, h)) in
    (apart, λ a i. let (filled, lora, allowed) = each a i in (lora, allowed))
