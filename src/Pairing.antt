-- ===== src/Pairing.antt =====
-- crates/bobaclaw-state/src/pairing.rs: a channel peer asks for access and gets a code, and whoever
-- runs the agent approves the code.
--
-- The table is the list of its rows in the order of insertion; of several rows a SELECT without an
-- order takes the first. The clock is an argument, in milliseconds, and
-- one reading of it serves the code, which is made of its seconds, and the row. The partial unique index of
-- migrations/20260603210000_pairing.sql is the error of the insertion.
pub mod Approval
pub mod Requests
pub mod Tests
use boba_claw.Prelude.{
  ℕ, ◌+◌, ◌/◌, ◌%◌, String, str_eq, Bool, true, false, not, ◌&&◌, Option, none, some, List, [], ◌∷◌,
  ◌++◌, if◌then◌else◌, ltb, any, Text, text_eq, Result, ok, err,
}
use boba_claw.Sessions.{SqlError, unique}

pub data Status : Type 0 where
  pending approved superseded : Status

abbrev pub is_pending : Status → Bool
is_pending pending = true
is_pending approved = false
is_pending superseded = false

abbrev pub is_approved_status : Status → Bool
is_approved_status pending = false
is_approved_status approved = true
is_approved_status superseded = false

pub record PairingRow : Type 0 where
  pub channel : String
  pub peer : String
  pub code : Text
  pub display_name : Option Text
  pub status : Status
  pub created_at : ℕ
  pub resolved_at : Option ℕ

abbrev pub of_peer : String → String → PairingRow → Bool
of_peer channel peer r = str_eq r.channel channel && str_eq r.peer peer

abbrev pub waits : String → String → PairingRow → Bool
waits channel peer r = of_peer channel peer r && is_pending r.status

abbrev pub has_code : String → Text → PairingRow → Bool
has_code channel code r = str_eq r.channel channel && text_eq r.code code && is_pending r.status

unfoldable pub is_approved : List PairingRow → String → String → Bool
is_approved rows channel peer =
    any (λ r. of_peer channel peer r && is_approved_status r.status) rows

-- `ORDER BY created_at DESC LIMIT 1`; of rows of one time, the first.
abbrev pub later : PairingRow → Option PairingRow → PairingRow
later r none = r
later r (some s) = if ltb r.created_at s.created_at then s else r

abbrev pub latest_where : (PairingRow → Bool) → List PairingRow → Option PairingRow
latest_where hit [] = none
latest_where hit (r ∷ rs) =
    if hit r then some (later r (latest_where hit rs)) else latest_where hit rs

abbrev pub code_of : Option PairingRow → Option Text
code_of none = none
code_of (some r) = some r.code

unfoldable pub pending_code : List PairingRow → String → String → Option Text
pending_code rows channel peer = code_of (latest_where (waits channel peer) rows)

-- `format!("{:06}", n % 1_000_000)`
unfoldable pub generate_pairing_code : ℕ → Text
generate_pairing_code n =
    (48 + n / 100000 % 10)
    ∷ (48 + n / 10000 % 10)
    ∷ (48 + n / 1000 % 10)
    ∷ (48 + n / 100 % 10)
    ∷ (48 + n / 10 % 10)
    ∷ (48 + n % 10)
    ∷ []

abbrev pub new_request : String → String → Option Text → ℕ → PairingRow
new_request channel peer display_name now = record {
  channel = channel;
  peer = peer;
  code = generate_pairing_code (now / 1000);
  display_name = display_name;
  status = pending;
  created_at = now;
  resolved_at = none;
}

abbrev pub insert_request : List PairingRow → PairingRow → Result SqlError (List PairingRow × Text)
insert_request rows r =
    if any (waits r.channel r.peer) rows then err unique else ok (rows ++ r ∷ [], r.code)

abbrev pub get_or_insert :
    List PairingRow → PairingRow → Option Text → Result SqlError (List PairingRow × Text)
get_or_insert rows r (some code) = ok (rows, code)
get_or_insert rows r none = insert_request rows r

unfoldable pub create_or_get_pending :
    List PairingRow → String → String → Option Text → ℕ → Result SqlError (List PairingRow × Text)
create_or_get_pending rows channel peer display_name now =
    get_or_insert rows (new_request channel peer display_name now) (pending_code rows channel peer)

-- `UPDATE … WHERE …`
abbrev pub resolve_where : (PairingRow → Bool) → Status → ℕ → List PairingRow → List PairingRow
resolve_where hit status now [] = []
resolve_where hit status now (r ∷ rs) =
    (if hit r then record r { status = status; resolved_at = some now } else r)
    ∷ resolve_where hit status now rs

abbrev pub first_where : (PairingRow → Bool) → List PairingRow → Option PairingRow
first_where hit [] = none
first_where hit (r ∷ rs) = if hit r then some r else first_where hit rs

abbrev pub other_request : String → String → Text → PairingRow → Bool
other_request channel peer code r = waits channel peer r && not (text_eq r.code code)

abbrev pub approve_found :
    List PairingRow → String → Text → ℕ → Option PairingRow → List PairingRow × Option String
approve_found rows channel code now none = (rows, none)
approve_found rows channel code now (some found) =
    let approved_rows = resolve_where (has_code channel code) approved now rows in
    (
      resolve_where (other_request channel found.peer code) superseded now approved_rows,
      some found.peer,
    )

unfoldable pub approve_by_code :
    List PairingRow → String → Text → ℕ → List PairingRow × Option String
approve_by_code rows channel code now =
    approve_found rows channel code now (first_where (has_code channel code) rows)
