-- ===== src/Gateway.antt =====
-- The gateway's bearer token: crates/bobaclaw-gateway/src/auth.rs.
--
-- The header value is the text that `to_str` of the HTTP library gives, visible ASCII, so its codes are
-- its bytes. The parser of IP addresses is the argument `ip_is_loopback`. A response is the
-- flag whether the request is passed on; otherwise it is the answer 401. `usize` has 64 bits here, and
-- the cast of the lengths' difference to `u64` keeps it.
pub mod Digits
pub mod Bearer
pub mod Tests
use boba_claw.Prelude.{
  reverse, ◌++◌, ℕ, ◌+◌, Bool, true, false, ◌&&◌, ◌||◌, ◌==◌, Option, none, some, List, [], ◌∷◌,
  if◌then◌else◌, leb, length, any, Text, codes, is_empty, text_eq, trim, Result, ok, err,
}
use Prim.Native.Nat.{bit_or, bit_xor}

-- The bytes of the token, when one is configured.
pub record GatewayAuth : Type 0 where
  pub token : Option (List ℕ)

abbrev pub byte_or_zero : List ℕ → ℕ
byte_or_zero [] = 0
byte_or_zero (p ∷ ps) = p

abbrev pub later : List ℕ → List ℕ
later [] = []
later (p ∷ ps) = ps

abbrev pub or_diffs : ℕ → List ℕ → List ℕ → ℕ
or_diffs diff ps [] = diff
or_diffs diff ps (e ∷ es) = or_diffs (bit_or diff (bit_xor (byte_or_zero ps) e)) (later ps) es

unfoldable pub constant_time_eq : List ℕ → List ℕ → Bool
constant_time_eq presented expected =
    or_diffs (bit_xor (length presented) (length expected)) presented expected == 0

-- `str::split_once(' ')`
abbrev pub split_space : Text → Option (Text × Text)
split_space [] = none
split_space (c ∷ s) =
    if c == 32
    then some ([], s)
    else elim (split_space s) [ none ↦ none | some found ↦ some (c ∷ found.0, found.1) ]

-- `u8::to_ascii_lowercase` and `str::eq_ignore_ascii_case`
abbrev pub to_lower : ℕ → ℕ
to_lower c = if leb 65 c && leb c 90 then c + 32 else c

abbrev pub lower_all : Text → Text
lower_all [] = []
lower_all (c ∷ s) = to_lower c ∷ lower_all s

abbrev pub bearer_token : Option (Text × Text) → Option Text
bearer_token none = none
bearer_token (some (scheme, rest)) =
    if text_eq (lower_all scheme) (codes "bearer")
    then (if is_empty (trim rest) then none else some (trim rest))
    else none

unfoldable pub parse_bearer : Text → Option Text
parse_bearer value = bearer_token (split_space (trim value))

abbrev pub public_paths : List Text
public_paths = codes "/health" ∷ codes "/ui" ∷ codes "/ui/" ∷ []

abbrev pub presented : Option Text → Option Text
presented none = none
presented (some value) = parse_bearer value

abbrev pub matches : Option Text → List ℕ → Bool
matches none expected = false
matches (some token) expected = constant_time_eq token expected

unfoldable pub require_bearer : GatewayAuth → Text → Option Text → Bool
require_bearer auth path header = elim auth.token [
  | none ↦ true
  | some expected ↦
      if any (text_eq path) public_paths then true else matches (presented header) expected
]

-- `str::trim_start_matches` and `str::trim_end_matches`
abbrev without_leading : ℕ → Text → Text
without_leading d [] = []
without_leading d (c ∷ s) = if c == d then without_leading d s else c ∷ s

abbrev without_trailing : ℕ → Text → Text
without_trailing d s = reverse (without_leading d (reverse s))

abbrev host_of : Text → Text
host_of bind = without_trailing 93 (without_leading 91 (trim bind))

-- `ip_is_loopback` is the parser of addresses with its test, false for what is no address.
unfoldable pub is_loopback_bind : (Text → Bool) → Text → Bool
is_loopback_bind ip_is_loopback bind =
    text_eq (lower_all (host_of bind)) (codes "localhost") || ip_is_loopback (host_of bind)

unfoldable pub from_parts : (Text → Bool) → Text → Text → Option (List ℕ) → Result Text GatewayAuth
from_parts ip_is_loopback bind token_env (some token) = ok (record { token = some token })
from_parts ip_is_loopback bind token_env none =
    if is_loopback_bind ip_is_loopback bind
    then ok (record { token = none })
    else err (
        codes "refusing to start gateway on non-loopback bind '"
        ++ bind
        ++ codes "' without an auth token: set env "
        ++ token_env
        ++ codes " (gateway.auth_token_env) or gateway.auth_token, or bind to 127.0.0.1")
