-- ===== src/Router/Attested/Bound.antt =====
-- What the readiness of an upstream of crates/lmml-router/src/lib.rs rests on where approvals are enforced.
use lmml.Base.{
  String, ◌≡◌, refl, ap, subst, ◌∙◌, Bool, true, false, Option, none, some, arith, if◌then◌else◌,
  Result, ok, err, ok_or, >>-ok, >>=-ok, ok_inj, ok_or-some,
}
use lmml.Base.Int.{ℤ}
use lmml.Substrate.Errors.{SubstrateError}
use lmml.Substrate.Disk.{Bytes}
use lmml.Substrate.Approval.Hex.{hex_decode}
use lmml.Api.{HealthResponse}
use lmml.Api.Attestation.{
  GatewayAttestationClaims, GatewayAttestation, message, panic, AttestationPlatform, Attested,
  verify_gateway_attestation, validate_gateway_attestation_binding,
}
use lmml.Router.Types.{UpstreamProbe}
use lmml.Router.Selection.{approval_enforcement_enabled}
use lmml.Router.Attested.{
  HealthAnswer, is_panic, key_bytes, decode_hex, attestation_key, gateway_attestation_binding,
  is_accepted, verify_gateway_attestation_bound, is_attested, is_approved_upstream, with_approval,
  get_upstream_health, probe_of, fetch_upstream_probe, Asked,
}
use lmml.Router.Attested.Signed.{IsSigned, IsNamed, verified-IsSigned, binding-IsNamed}

is_accepted-ok : {A : Type 0} (r : Attested A) → is_accepted r ≡ ok true → (a : A) × (r ≡ ok a)
is_accepted-ok (ok a) h = (a, refl)
is_accepted-ok (err (message text)) h = cc
is_accepted-ok (err panic) h = cc

key_bytes-some :
    (r : Result SubstrateError Bytes) (key : Bytes) → key_bytes r ≡ ok (some key) → r ≡ ok key
key_bytes-some (ok k) key h = cc
key_bytes-some (err e) key h = absurd (never (is_panic e) h)
  where
    never :
        (b : Bool)
        → ◌≡◌ {A = Attested (Option Bytes)} (if b then err panic else ok none) (ok (some key))
        → ⊥
    never true h = cc
    never false h = cc

module _ (p : AttestationPlatform) (var : String → Option String) (now : ℤ) where
  -- An attestation under the key that the environment has, with the claims that it names.
  pub record IsBound (response : HealthAnswer) : Type 0 where
    pub attestation : String
    pub key_text : String
    pub key : Bytes
    pub claims : GatewayAttestationClaims
    pub sent : response.attestation ≡ some attestation
    pub key_named : var "LMML_GATEWAY_ATTESTATION_PUBLIC_KEY_HEX" ≡ some key_text
    pub key_read : hex_decode key_text ≡ ok key
    pub signed : IsSigned p key now claims
    pub named : IsNamed var claims

  bound_claims :
      (encoded : String) (key : Bytes) (attestation : GatewayAttestation)
      → verify_gateway_attestation_bound p var now encoded key ≡ ok attestation
      → IsSigned p key now attestation.claims × IsNamed var attestation.claims
  unfolding verify_gateway_attestation_bound
  bound_claims encoded key attestation h =
      let (found, e1, h1) = >>=-ok (verify_gateway_attestation p encoded key now) _ h in
      let (binding, e2, h2) = >>=-ok (ok_or (gateway_attestation_binding var) _) _ h1 in
      let (e3, h3) = >>-ok (validate_gateway_attestation_binding found.claims binding) _ h2 in
      let same = ok_inj found attestation h3 in
      subst (λ (a : GatewayAttestation). IsSigned p key now a.claims × IsNamed var a.claims) same
        (
          verified-IsSigned p encoded key now found e1,
          binding-IsNamed var found.claims binding (ok_or-some _ _ binding e2) e3,
        )

  is_approved_upstream-IsBound :
      (response : HealthAnswer)
      → approval_enforcement_enabled (var "LMML_APPROVAL_ENFORCEMENT") ≡ true
      → is_approved_upstream p var now response ≡ ok true
      → IsBound response
  unfolding is_approved_upstream decode_hex
  is_approved_upstream-IsBound response on h =
      let (key, e1, h1) =
        >>=-ok (attestation_key (var "LMML_GATEWAY_ATTESTATION_PUBLIC_KEY_HEX"))
          (is_attested p var now response.attestation) (rw on at h) in
      by_parts response.attestation key (var "LMML_GATEWAY_ATTESTATION_PUBLIC_KEY_HEX") refl refl e1
        h1
    where
      by_parts :
          (sent : Option String) (key : Option Bytes) (text : Option String)
          → response.attestation ≡ sent
          → var "LMML_GATEWAY_ATTESTATION_PUBLIC_KEY_HEX" ≡ text
          → attestation_key text ≡ ok key
          → is_attested p var now sent key ≡ ok true
          → IsBound response
      by_parts (some encoded) (some key) (some text) e f k h =
          let (attestation, accepted) =
            is_accepted-ok (verify_gateway_attestation_bound p var now encoded key) h in
          let (signed, named) = bound_claims encoded key attestation accepted in
          record {
            attestation = encoded;
            key_text = text;
            key = key;
            claims = attestation.claims;
            sent = e;
            key_named = f;
            key_read = key_bytes-some (hex_decode text) key k;
            signed = signed;
            named = named;
          }
      by_parts (some encoded) (some key) none e f k h = cc
      by_parts (some encoded) none text e f k h = cc
      by_parts none key text e f k h = cc

  health-approved :
      (response : HealthAnswer) (found : Option HealthResponse × Bool)
      → get_upstream_health p var now (some response) ≡ ok (some found)
      → found.1 ≡ true
      → is_approved_upstream p var now response ≡ ok true
  unfolding get_upstream_health
  health-approved response found h approved =
      let (flag, e, k) = >>=-ok (is_approved_upstream p var now response) _ h in
      e ∙ ap ok (of_json response.json flag (ok_inj _ _ k))
    where
      of_json :
          (json : Option HealthResponse) (flag : Bool)
          → with_approval p var now json flag ≡ some found
          → flag ≡ true
      of_json none flag k = cc
      of_json (some health) flag k = ground (arith, k, approved)

  pub fetched-IsBound :
      (asked : Asked) (probe : UpstreamProbe)
      → approval_enforcement_enabled (var "LMML_APPROVAL_ENFORCEMENT") ≡ true
      → fetch_upstream_probe p var now asked.0 asked.1.0 asked.1.1.0 asked.1.1.1 ≡ ok probe
      → probe.approved_upstream ≡ true
      → (response : HealthAnswer) × (asked.1.0 ≡ some response) × IsBound response
  unfolding fetch_upstream_probe get_upstream_health
  fetched-IsBound (config, (none, (capabilities, load))) probe on h approved = cc
  fetched-IsBound (config, (some response, (capabilities, load))) probe on h approved =
      let (found, e, k) = >>=-ok (get_upstream_health p var now (some response)) _ h in
      (response, refl, is_approved_upstream-IsBound response on (of_health found e (ok_inj _ _ k)))
    where
      of_health :
          (found : Option (Option HealthResponse × Bool))
          → get_upstream_health p var now (some response) ≡ ok found
          → probe_of p var now config found capabilities load ≡ probe
          → is_approved_upstream p var now response ≡ ok true
      of_health none e k = cc
      of_health (some found) e k =
          health-approved response found e
            (ap (λ (u : UpstreamProbe). u.approved_upstream) k ∙ approved)
