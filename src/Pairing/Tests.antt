-- ===== src/Pairing/Tests.antt =====
-- Pairing: the theorems where two peers ask in the same second.
use boba_claw.Prelude.{
  Text, ℕ, Option, ◌≡◌, refl, String, true, ◌||◌, none, some, List, [], ◌∷◌, any, codes, text_eq,
  ◌&&◌, ok,
}
use boba_claw.Pairing.{
  PairingRow, approved, is_approved, pending_code, create_or_get_pending, approve_by_code,
  new_request, of_peer, is_pending, generate_pairing_code,
}
use boba_claw.Pairing.Approval.{approval_exact}
use boba_claw.Pairing.Requests.{OnePending, IsAnswer, request_is_answered}

abbrev alice : PairingRow
alice = new_request "telegram" "1" none 1000042500

abbrev mallory : PairingRow
mallory = new_request "telegram" "2" none 1000042500

abbrev both_wait : List PairingRow
both_wait = alice ∷ mallory ∷ []

abbrev grant : PairingRow → PairingRow
grant r = record r { status = approved; resolved_at = some 1000050000 }

abbrev both_granted : List PairingRow
both_granted = grant alice ∷ grant mallory ∷ []

approves :
    approve_by_code both_wait "telegram" (codes "000042") 1000050000 ≡ (both_granted, some "1")
unfolding approve_by_code generate_pairing_code
approves = refl

approval_exact_example :
    (is_approved both_granted "telegram" "1" ≡ true)
    × (pending_code both_granted "telegram" "1" ≡ none)
    × ((q : String)
        → is_approved both_granted "telegram" q ≡ (
            is_approved both_wait "telegram" q
            || any
                (λ r.
                  of_peer "telegram" q r && text_eq r.code (codes "000042") && is_pending r.status)
                both_wait))
approval_exact_example =
    approval_exact both_wait both_granted "telegram" "1" (codes "000042") 1000050000 approves

asks : create_or_get_pending [] "telegram" "1" none 1000042500 ≡ ok (alice ∷ [], codes "000042")
unfolding create_or_get_pending pending_code generate_pairing_code
asks = refl

request_is_answered_example :
    (rows : List PairingRow) × (code : Text) × (create_or_get_pending both_wait "telegram" "1" none
        1000099000
      ≡ ok (rows, code))
    × IsAnswer both_wait "telegram" "1" none 1000099000 rows code
    × ((name : Option Text) (now : ℕ)
        → create_or_get_pending rows "telegram" "1" name now ≡ ok (rows, code))
    × (OnePending both_wait → OnePending rows)
request_is_answered_example = request_is_answered both_wait "telegram" "1" none 1000099000

first_code_again :
    create_or_get_pending both_wait "telegram" "1" none 1000099000 ≡ ok (both_wait, codes "000042")
unfolding create_or_get_pending pending_code generate_pairing_code
first_code_again = refl
