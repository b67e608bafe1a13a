-- ===== src/Gateway/Tests.antt =====
-- The gateway: the theorems at concrete requests.
use boba_claw.Prelude.{
  ok, none, trim_start, trim_end, is_whitespace, ℕ, ◌≡◌, ◌↔◌, ◌⊎◌, refl, Bool, true, false, some,
  List, any, Text, codes, text_eq, trim,
}
use boba_claw.Gateway.{
  constant_time_eq, public_paths, presented, parse_bearer, require_bearer, is_loopback_bind,
  from_parts,
}
use boba_claw.Gateway.Bearer.{gateway_guarded}

abbrev no_loopback : Text → Bool
no_loopback host = false

parses : parse_bearer (codes " BEARER  s3cret ") ≡ some (codes "s3cret")
unfolding parse_bearer trim
parses = refl

refuses_prefix : constant_time_eq (codes "ab") (codes "abc") ≡ false
unfolding constant_time_eq
refuses_prefix = refl

gateway_guarded_example :
    require_bearer
        (record { token = some (codes "s3cret") })
        (codes "/v1/message")
        (some (codes "Bearer s3cret"))
      ≡ true
    ↔ ((any (text_eq (codes "/v1/message")) public_paths ≡ true)
        ⊎ ((token : List ℕ) × (some (codes "s3cret") ≡ some token)
            × (presented (some (codes "Bearer s3cret")) ≡ some token)))
unfolding from_parts is_loopback_bind trim trim_start trim_end is_whitespace
gateway_guarded_example =
    gateway_guarded no_loopback (codes "0.0.0.0") (codes "TOKEN") (some (codes "s3cret"))
      (record { token = some (codes "s3cret") }) (codes "/v1/message")
      (some (codes "Bearer s3cret")) refl refl

localhost_may_start :
    from_parts no_loopback (codes " LocalHost ") (codes "TOKEN") none ≡ ok (record { token = none })
unfolding from_parts is_loopback_bind trim trim_start trim_end is_whitespace
localhost_may_start = refl
