-- ===== src/Gateway/Bearer.antt =====
-- Who passes the gateway's token check (crates/bobaclaw-gateway/src/auth.rs).
use boba_claw.Prelude.{
  ℕ, ◌≡◌, ◌↔◌, ◌⊎◌, inl, inr, refl, sym, ap, subst, ◌∙◌, Bool, true, false, Bool-cases, Option,
  none, some, List, [], ◌∷◌, ◌==◌, length, any, Text, text_eq, Result, ok, err, arith,
  if◌then◌else◌,
}
use Prim.Native.Nat.{bit_or, bit_xor}
use boba_claw.Gateway.{
  GatewayAuth, byte_or_zero, later, or_diffs, constant_time_eq, public_paths, presented, matches,
  require_bearer, is_loopback_bind, from_parts,
}
use boba_claw.Gateway.Digits.{bit_xor-zero, bit_xor-same, bit_or-zero}

or_diffs-zero :
    (diff : ℕ) (ps es : List ℕ)
    → or_diffs diff ps es ≡ 0
    → length ps ≡ length es
    → (diff ≡ 0) × (ps ≡ es)
or_diffs-zero diff [] [] h same = (h, refl)
or_diffs-zero diff (p ∷ ps) [] h same = absurd (omega arith)
or_diffs-zero diff [] (e ∷ es) h same = absurd (omega arith)
or_diffs-zero diff (p ∷ ps) (e ∷ es) h same =
    let (now, rest) = or_diffs-zero (bit_or diff (bit_xor p e)) ps es h (omega arith) in
    let (before, byte) = bit_or-zero diff (bit_xor p e) now in
    (before, rw (bit_xor-zero p e byte, rest) refl)

or_diffs-same : (ps : List ℕ) → or_diffs 0 ps ps ≡ 0
or_diffs-same [] = refl
or_diffs-same (p ∷ ps) = rw (bit_xor-same p) (or_diffs-same ps)

or_diffs_mono : (diff : ℕ) (ps es : List ℕ) → or_diffs diff ps es ≡ 0 → diff ≡ 0
or_diffs_mono diff ps [] h = h
or_diffs_mono diff ps (e ∷ es) h =
    (bit_or-zero diff (bit_xor (byte_or_zero ps) e)
      (or_diffs_mono (bit_or diff (bit_xor (byte_or_zero ps) e)) (later ps) es h)).0

test-zero : (n : ℕ) → (n == 0) ≡ true → n ≡ 0
test-zero n h = ground arith

-- The comparison that does not stop at the first difference is true for equal sequences of bytes, and
-- only for those.
pub constant_time_eq_iff :
    (given expected : List ℕ) → constant_time_eq given expected ≡ true ↔ given ≡ expected
unfolding constant_time_eq
constant_time_eq_iff given expected = (
  λ h.
      let all = test-zero _ h in
      (or_diffs-zero (bit_xor (length given) (length expected)) given expected all
        (bit_xor-zero (length given) (length expected) (or_diffs_mono _ given expected all))).1,
  λ e. rw (e, bit_xor-same (length expected), or_diffs-same expected) refl,
)

matches-token :
    (token : Option Text) (expected : List ℕ)
    → matches token expected ≡ true
    → token ≡ some expected
matches-token none expected h = absurd (ground arith)
matches-token (some token) expected h = ap some ((constant_time_eq_iff token expected).0 h)

guarded :
    (token : List ℕ) (path : Text) (header : Option Text)
    → require_bearer (record { token = some token }) path header ≡ true
      ↔ ((any (text_eq path) public_paths ≡ true) ⊎ (presented header ≡ some token))
unfolding require_bearer
guarded token path header = elim (Bool-cases (any (text_eq path) public_paths)) [
  | inl free ↦ (λ h. inl free, λ h. rw (free) refl)
  | inr closed ↦ (
    λ h. inr (
        matches-token (presented header) token
          (subst (λ b. (if b then true else matches (presented header) token) ≡ true) closed h)),
    λ h. elim h [
      | inl free ↦ absurd (ground arith)
      | inr e ↦ rw (closed, e) ((constant_time_eq_iff token token).1 refl)
    ],
  )
]

abbrev token_of : Result Text GatewayAuth → Option (List ℕ)
token_of (ok auth) = auth.token
token_of (err e) = none

-- A gateway that starts on an address that is not a loopback address passes a request on exactly if the
-- path is one of the public ones, or there is a configured token and the header carries it.
pub gateway_guarded :
    (ip_is_loopback : Text → Bool) (bind token_env : Text) (configured : Option (List ℕ))
    (auth : GatewayAuth) (path : Text) (header : Option Text)
    → is_loopback_bind ip_is_loopback bind ≡ false
    → from_parts ip_is_loopback bind token_env configured ≡ ok auth
    → require_bearer auth path header ≡ true ↔ (
        (any (text_eq path) public_paths ≡ true)
        ⊎ ((token : List ℕ) × (configured ≡ some token) × (presented header ≡ some token)))
unfolding from_parts
gateway_guarded ip_is_loopback bind token_env none auth path header outside starts =
    absurd (ground (arith, outside))
gateway_guarded ip_is_loopback bind token_env (some token) auth path header outside starts =
    let same : record { token = some token } ≡ auth =
      ap (λ t. record { token = t }) (ap token_of starts) in
    let (there, back) = guarded token path header in
    subst
      (λ a. require_bearer a path header ≡ true ↔ (
        (any (text_eq path) public_paths ≡ true)
        ⊎ ((token' : List ℕ) × (some token ≡ some token') × (presented header ≡ some token'))))
      same
      (
        λ h. elim (there h) [ inl free ↦ inl free | inr e ↦ inr (token, refl, e) ],
        λ h. elim h [ inl free ↦ back (inl free) | inr (t, e, f) ↦ back (inr (f ∙ sym e)) ],
      )
