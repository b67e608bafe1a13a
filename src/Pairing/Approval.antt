-- ===== src/Pairing/Approval.antt =====
-- What a request and an approval do.
use boba_claw.Prelude.{
  ℕ, ◌≡◌, refl, ap, subst, ◌∙◌, inl, inr, String, eq_refl, Bool, true, false, ◌&&◌, ◌||◌, none,
  some, List, [], ◌∷◌, any, Bool-cases, Option-cases, Text, text_eq, arith,
}
use boba_claw.Pairing.{
  Status, pending, approved, superseded, is_pending, is_approved_status, PairingRow, of_peer, waits,
  has_code, is_approved, latest_where, code_of, pending_code, resolve_where, first_where,
  other_request, approve_by_code,
}

abbrev holds_code : String → String → Text → PairingRow → Bool
holds_code channel peer code r =
    of_peer channel peer r && text_eq r.code code && is_pending r.status

abbrev granted : String → String → PairingRow → Bool
granted channel peer r = of_peer channel peer r && is_approved_status r.status

pending_not_approved : (st : Status) → is_pending st ≡ true → is_approved_status st ≡ false
pending_not_approved pending h = refl
pending_not_approved approved h = absurd (ground arith)
pending_not_approved superseded h = absurd (ground arith)

-- Superseding touches pending rows only.
supersede-granted :
    (rows : List PairingRow) (channel peer : String) (hit : PairingRow → Bool) (now : ℕ)
    → ((r : PairingRow) → hit r ≡ true → is_pending r.status ≡ true)
    → any (granted channel peer) (resolve_where hit superseded now rows)
      ≡ any (granted channel peer) rows
supersede-granted [] channel peer hit now h = refl
supersede-granted (r ∷ rs) channel peer hit now h = elim (Bool-cases (hit r)) [
  | inr miss ↦ rw (miss, supersede-granted rs channel peer hit now h)
  | inl on ↦
      rw (on, supersede-granted rs channel peer hit now h)
        (ground (arith, pending_not_approved r.status, h r))
]

approve-granted :
    (rows : List PairingRow) (channel peer : String) (code : Text) (now : ℕ)
    → any (granted channel peer) (resolve_where (has_code channel code) approved now rows)
      ≡ (any (granted channel peer) rows || any (holds_code channel peer code) rows)
approve-granted [] channel peer code now = refl
approve-granted (r ∷ rs) channel peer code now = elim (Bool-cases (has_code channel code r)) [
  | inl on ↦
      rw (on, approve-granted rs channel peer code now)
        (ground (arith, pending_not_approved r.status))
  | inr miss ↦
      rw (miss, approve-granted rs channel peer code now)
        (ground (arith, pending_not_approved r.status))
]

all_resolved :
    (rows : List PairingRow) (channel peer : String) (code : Text) (now : ℕ)
    → latest_where (waits channel peer) (
        resolve_where
          (other_request channel peer code)
          superseded
          now
          (resolve_where (has_code channel code) approved now rows))
      ≡ none
all_resolved [] channel peer code now = refl
all_resolved (r ∷ rs) channel peer code now = elim (Bool-cases (has_code channel code r)) [
  | inl on ↦ rw (on) (ground (arith, all_resolved rs channel peer code now))
  | inr miss ↦ rw miss (elim (Bool-cases (other_request channel peer code r)) [
    | inl other ↦ rw other (ground (arith, all_resolved rs channel peer code now))
    | inr mine ↦ rw mine (ground (arith, miss, mine, all_resolved rs channel peer code now))
  ])
]

first-found :
    (hit : PairingRow → Bool) (rows : List PairingRow) (r : PairingRow)
    → first_where hit rows ≡ some r
    → hit r ≡ true
first-found hit [] r h = absurd (ground arith)
first-found hit (x ∷ xs) r h = elim (Bool-cases (hit x)) [
  | inl on ↦ let same : x ≡ r = ground (arith, on) in subst (λ y. hit y ≡ true) same on
  | inr miss ↦ first-found hit xs r (ground (arith, miss))
]

first-any :
    (channel : String) (code : Text) (rows : List PairingRow) (r : PairingRow)
    → first_where (has_code channel code) rows ≡ some r
    → any (holds_code channel r.peer code) rows ≡ true
first-any channel code [] r h = absurd (ground arith)
first-any channel code (x ∷ xs) r h = elim (Bool-cases (has_code channel code x)) [
  | inl on ↦
      let same : x ≡ r = ground (arith, on) in
      subst (λ y. any (holds_code channel y.peer code) (x ∷ xs) ≡ true) same
        (ground (arith, on, eq_refl x.peer))
  | inr miss ↦ ground (arith, first-any channel code xs r (ground (arith, miss)))
]

-- An approval that names a peer: the peer is approved and has no request pending any more, and the
-- peers approved in the channel are those that were, and those, all of them, that had a pending
-- request under the code.
pub approval_exact :
    (rows rows' : List PairingRow) (channel peer : String) (code : Text) (now : ℕ)
    → approve_by_code rows channel code now ≡ (rows', some peer)
    → (is_approved rows' channel peer ≡ true)
      × (pending_code rows' channel peer ≡ none)
      × ((q : String)
          → is_approved rows' channel q
            ≡ (is_approved rows channel q || any (holds_code channel q code) rows))
unfolding approve_by_code is_approved pending_code
approval_exact rows rows' channel peer code now h =
    elim (Option-cases (first_where (has_code channel code) rows)) [
      | inl e ↦ absurd (ground (arith, e))
      | inr (found, e) ↦
          let middle = resolve_where (has_code channel code) approved now rows in
          let hit = other_request channel found.peer code in
          let same : resolve_where hit superseded now middle ≡ rows' = ground (arith, e) in
          let named : found.peer ≡ peer = ground (arith, e) in
          let exact : (q : String)
              → any (granted channel q) rows'
                ≡ (any (granted channel q) rows || any (holds_code channel q code) rows) =
            λ q.
              subst
                (λ xs.
                  any (granted channel q) xs
                  ≡ (any (granted channel q) rows || any (holds_code channel q code) rows))
                same
                (supersede-granted middle channel q hit now (λ r k. ground arith)
                  ∙ approve-granted rows channel q code now) in
          let holds =
            subst (λ p. any (holds_code channel p code) rows ≡ true) named
              (first-any channel code rows found e) in
          (
            exact peer ∙ ground (arith, holds),
            subst (λ xs. code_of (latest_where (waits channel peer) xs) ≡ none) same
                (subst
                  (λ p.
                    code_of (
                      latest_where (waits channel p) (
                        resolve_where (other_request channel found.peer code) superseded now
                          middle))
                    ≡ none)
                  named (ap code_of (all_resolved rows channel found.peer code now))),
            exact,
          )
    ]
