-- ===== src/Pairing/Requests.antt =====
-- Requests for a code, and how many a peer can have pending.
use boba_claw.Prelude.{
  ◌⊎◌, ◌/◌, ℕ, ◌≤◌, ◌≡◌, refl, ap, subst, inl, inr, String, eq_iff, eq_refl, Bool, true, false,
  Option, none, some, List, [], ◌∷◌, ◌++◌, any, count, count-append, Bool-cases, Option-cases, Text,
  ok, arith,
}
use boba_claw.Pairing.{
  PairingRow, waits, latest_where, code_of, pending_code, generate_pairing_code, new_request,
  create_or_get_pending,
}

latest-append :
    (hit : PairingRow → Bool) (rows : List PairingRow) (r : PairingRow)
    → latest_where hit rows ≡ none
    → hit r ≡ true
    → latest_where hit (rows ++ r ∷ []) ≡ some r
latest-append hit [] r h k = rw k
latest-append hit (x ∷ xs) r h k = elim (Bool-cases (hit x)) [
  | inl on ↦ absurd (ground (arith, on))
  | inr miss ↦ rw miss (latest-append hit xs r (ground (arith, miss)) k)
]

code-none : (o : Option PairingRow) → code_of o ≡ none → o ≡ none
code-none none h = refl
code-none (some r) h = absurd (ground arith)

-- A peer that asks again, at any time and under any name, while its request is pending gets the same
-- code, and the table does not change.
pub same_code_again :
    (rows rows' : List PairingRow) (channel peer : String) (name name' : Option Text) (code : Text)
    (now now' : ℕ)
    → create_or_get_pending rows channel peer name now ≡ ok (rows', code)
    → create_or_get_pending rows' channel peer name' now' ≡ ok (rows', code)
unfolding create_or_get_pending pending_code
same_code_again rows rows' channel peer name name' code now now' h =
    elim (Option-cases (code_of (latest_where (waits channel peer) rows))) [
      | inr (c, e) ↦
          let same : rows ≡ rows' = ground (arith, e) in
          let told : c ≡ code = ground (arith, e) in
          let held = subst (λ xs. code_of (latest_where (waits channel peer) xs) ≡ some c) same e in
          rw (held, told) refl
      | inl e ↦
          let r = new_request channel peer name now in
          elim (Bool-cases (any (waits channel peer) rows)) [
            | inl taken ↦ absurd (ground (arith, e, taken))
            | inr free ↦
                let grown : rows ++ r ∷ [] ≡ rows' = ground (arith, e, free) in
                let told : generate_pairing_code (now / 1000) ≡ code = ground (arith, e, free) in
                let found =
                  latest-append (waits channel peer) rows r (code-none _ e)
                    (rw (eq_refl channel, eq_refl peer) refl) in
                let held =
                  subst (λ xs. code_of (latest_where (waits channel peer) xs) ≡ some r.code) grown
                    (ap code_of found) in
                rw (held, told) refl
          ]
    ]

-- What the partial unique index demands.
abbrev pub OnePending : List PairingRow → Type 0
OnePending rows = (channel peer : String) → count (waits channel peer) rows ≤ 1

any-count :
    (hit : PairingRow → Bool) (rows : List PairingRow) → any hit rows ≡ false → count hit rows ≡ 0
any-count hit [] h = refl
any-count hit (r ∷ rs) h = ground (arith, any-count hit rs)

added-count :
    (rows : List PairingRow) (r : PairingRow) (channel peer : String)
    → any (waits r.channel r.peer) rows ≡ false
    → count (waits channel peer) rows ≤ 1
    → count (waits channel peer) (rows ++ r ∷ []) ≤ 1
added-count rows r channel peer free v = elim (Bool-cases (waits channel peer r)) [
  | inr other ↦ ground (arith, count-append (waits channel peer) rows (r ∷ []), other)
  | inl own ↦
      let ch : r.channel ≡ channel = ground (arith, own, eq_iff r.channel channel) in
      let p : r.peer ≡ peer = ground (arith, own, eq_iff r.peer peer) in
      let empty =
        subst (λ c. any (waits c peer) rows ≡ false) ch
          (subst (λ q. any (waits r.channel q) rows ≡ false) p free) in
      ground (
        arith,
        count-append (waits channel peer) rows (r ∷ []),
        own,
        any-count (waits channel peer) rows empty,
      )
]

create-OnePending :
    (rows rows' : List PairingRow) (channel peer : String) (name : Option Text) (code : Text)
    (now : ℕ)
    → create_or_get_pending rows channel peer name now ≡ ok (rows', code)
    → OnePending rows
    → OnePending rows'
unfolding create_or_get_pending
create-OnePending rows rows' channel peer name code now h v =
    elim (Option-cases (pending_code rows channel peer)) [
      | inr (c, e) ↦ subst OnePending (ground (arith, e)) v
      | inl e ↦
          let r = new_request channel peer name now in
          elim (Bool-cases (any (waits channel peer) rows)) [
            | inl taken ↦ absurd (ground (arith, e, taken))
            | inr free ↦
                let grown : rows ++ r ∷ [] ≡ rows' = ground (arith, e, free) in
                subst OnePending grown (λ ch p. added-count rows r ch p free (v ch p))
          ]
    ]

any-latest :
    (hit : PairingRow → Bool) (rows : List PairingRow)
    → latest_where hit rows ≡ none
    → any hit rows ≡ false
any-latest hit [] h = refl
any-latest hit (r ∷ rs) h = elim (Bool-cases (hit r)) [
  | inl on ↦ absurd (ground (arith, rw on at h))
  | inr miss ↦ rw miss (any-latest hit rs (rw miss at h))
]

-- The answer to a request: the code of a pending request of the peer's, the table left as it was, or a
-- new request's at the end of the table.
abbrev pub IsAnswer :
    List PairingRow → String → String → Option Text → ℕ → List PairingRow → Text → Type 0
IsAnswer rows channel peer name now rows' code =
    ((pending_code rows channel peer ≡ some code) × (rows' ≡ rows))
    ⊎ ((pending_code rows channel peer ≡ none)
        × (rows' ≡ rows ++ new_request channel peer name now ∷ [])
        × (code ≡ generate_pairing_code (now / 1000)))

answered :
    (rows : List PairingRow) (channel peer : String) (name : Option Text) (now : ℕ)
    → (rows' : List PairingRow) × (code : Text) × (create_or_get_pending rows channel peer name now
        ≡ ok (rows', code))
      × IsAnswer rows channel peer name now rows' code
unfolding create_or_get_pending pending_code
answered rows channel peer name now =
    elim (Option-cases (code_of (latest_where (waits channel peer) rows))) [
      | inr (c, e) ↦ (rows, c, rw e refl, inl (e, refl))
      | inl e ↦
          let free = any-latest (waits channel peer) rows (code-none _ e) in
          (
            rows ++ new_request channel peer name now ∷ [],
            generate_pairing_code (now / 1000),
            rw (e, free) refl,
            inr (e, refl, refl),
          )
    ]

-- A request for a code never fails on the table's index, whatever the table holds. It answers the code
-- of the peer's pending request and leaves the table as it was, or, if there is none, adds one under a
-- new code. A peer that asks again, at any time and under any name, gets the same code and changes
-- nothing, and a table with one pending request for each peer at most stays one.
pub request_is_answered :
    (rows : List PairingRow) (channel peer : String) (name : Option Text) (now : ℕ)
    → (rows' : List PairingRow) × (code : Text) × (create_or_get_pending rows channel peer name now
        ≡ ok (rows', code))
      × IsAnswer rows channel peer name now rows' code
      × ((name' : Option Text) (now' : ℕ)
          → create_or_get_pending rows' channel peer name' now' ≡ ok (rows', code))
      × (OnePending rows → OnePending rows')
request_is_answered rows channel peer name now =
    let (rows', code, told, answer) = answered rows channel peer name now in
    (
      rows',
      code,
      told,
      answer,
      λ name' now'. same_code_again rows rows' channel peer name name' code now now' told,
      create-OnePending rows rows' channel peer name code now told,
    )
