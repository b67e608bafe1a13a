-- ===== src/Sessions/Reset.antt =====
-- What a reset of a routed session changes for the requests after it.
use boba_claw.Prelude.{
  ℕ, ◌≡◌, refl, sym, ap, subst, ◌≢◌, ◌∙◌, inl, inr, String, str_eq, eq_iff, Bool, true, false,
  Option, none, some, List, [], ◌∷◌, ◌++◌, any, Bool-cases, ok, Result-cases, arith,
}
use boba_claw.Sessions.{StateDb, SessionRow, has_session}
use boba_claw.Sessions.Routes.{
  IngressKind, ingress_source, ChannelPeer, get_session_id, upsert, is_active, create_session,
  active_of, get_or_create_routed, end_where, reset_routed_session,
}
use boba_claw.Sessions.Resolution.{
  upserted, new_session, created_parts, any-last, new-active, active-some,
}

ended-inactive :
    (sid : String) (now : ℕ) (ss : List SessionRow)
    → any (is_active sid) (end_where (is_active sid) "channel_new" now ss) ≡ false
ended-inactive sid now [] = refl
ended-inactive sid now (s ∷ ss) = elim (Bool-cases (is_active sid s)) [
  | inl on ↦ rw (on, ended-inactive sid now ss) (ground arith)
  | inr off ↦ rw (off, ended-inactive sid now ss) (ground (arith, off))
]

ended-known :
    (sid id : String) (now : ℕ) (ss : List SessionRow)
    → has_session id (end_where (is_active sid) "channel_new" now ss) ≡ has_session id ss
ended-known sid id now [] = refl
ended-known sid id now (s ∷ ss) = elim (Bool-cases (is_active sid s)) [
  | inl on ↦ rw (on, ended-known sid id now ss) refl
  | inr off ↦ rw (off, ended-known sid id now ss) refl
]

any-other_last :
    (hit : SessionRow → Bool) (ss : List SessionRow) (s : SessionRow)
    → any hit ss ≡ false
    → hit s ≡ false
    → any hit (ss ++ s ∷ []) ≡ false
any-other_last hit [] s h k = rw k
any-other_last hit (x ∷ ss) s h k = ground (arith, any-other_last hit ss s)

known_differs :
    (id old : String) (ss : List SessionRow)
    → has_session id ss ≡ false
    → has_session old ss ≡ true
    → id ≢ old
known_differs id old ss h k e = ground (arith, subst (λ x. has_session x ss ≡ false) e h)

new-other :
    (source g id old : String) (user : Option String) (now : ℕ)
    → id ≢ old
    → is_active old (new_session source g user id now) ≡ false
unfolding new_session
new-other source g id old user now n = elim (Bool-cases (str_eq id old)) [
  | inl same ↦ absurd (n (ground (arith, eq_iff id old)))
  | inr other ↦ rw other
]

-- A reset of a peer whose route leads to a stored session, if it succeeds: the peer gets the fresh
-- session, which is another one, and is found for the peer from then on; and the old one has ended.
pub reset_starts_fresh :
    (db db' : StateDb) (p : ChannelPeer) (g : String) (k : IngressKind) (id sid old : String)
    (now n : ℕ)
    → get_session_id db.routes p ≡ some old
    → has_session old db.sessions ≡ true
    → reset_routed_session db p g k id now ≡ ok (db', n, sid)
    → (sid ≡ id)
      × (sid ≢ old)
      × (active_of db'.sessions (get_session_id db'.routes p) ≡ some sid)
      × (any (is_active old) db'.sessions ≡ false)
unfolding reset_routed_session get_or_create_routed
reset_starts_fresh db db' p g k id sid old now n route known h =
    let ended = end_where (is_active old) "channel_new" now db.sessions in
    let middle = record db { sessions = ended } in
    let gone : active_of ended (some old) ≡ none = rw (ended-inactive old now db.sessions) in
    elim (Result-cases (create_session middle (ingress_source k) g (some p.peer) id now)) [
      | inr (x, f) ↦ absurd (ground (arith, route, gone, f))
      | inl (made, f) ↦
          let (free, grown) =
            created_parts middle made (ingress_source k) g id (some p.peer) now f in
          let fresh : has_session id db.sessions ≡ false =
            sym (ended-known old id now db.sessions) ∙ free in
          let differs = known_differs id old db.sessions fresh known in
          let row = new_session (ingress_source k) g (some p.peer) id now in
          let next = record made { routes = upsert made.routes p g id } in
          let same : next ≡ db' = ground (arith, route, gone, f) in
          let told : id ≡ sid = ground (arith, route, gone, f) in
          let off : any (is_active old) made.sessions ≡ false =
            ap (λ (d : StateDb). any (is_active old) d.sessions) grown
            ∙ any-other_last (is_active old) ended row (ended-inactive old now db.sessions)
                (new-other (ingress_source k) g id old (some p.peer) now differs) in
          let on : any (is_active id) made.sessions ≡ true =
            ap (λ (d : StateDb). any (is_active id) d.sessions) grown
            ∙ any-last (is_active id) ended row
                (new-active (ingress_source k) g id (some p.peer) now) in
          (
            sym told,
            λ e. differs (told ∙ e),
            subst (λ (d : StateDb). active_of d.sessions (get_session_id d.routes p) ≡ some sid)
                same
                (ap (active_of made.sessions) (upserted p g id made.routes)
                  ∙ active-some id made.sessions on
                  ∙ ap some told),
            subst (λ (d : StateDb). any (is_active old) d.sessions ≡ false) same off,
          )
    ]
