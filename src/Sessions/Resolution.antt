-- ===== src/Sessions/Resolution.antt =====
-- Finding and resolving a session agree.
use boba_claw.Prelude.{
  ℕ, ◌≡◌, refl, sym, ap, subst, ◌∙◌, inl, inr, String, eq_refl, Bool, true, false, Option, none,
  some, List, [], ◌∷◌, ◌++◌, any, Bool-cases, Option-cases, ok, Result-cases, arith,
}
use boba_claw.Sessions.{StateDb, SessionRow, RouteRow, has_session}
use boba_claw.Sessions.Routes.{
  IngressKind, ingress_source, ChannelPeer, NormalizedRequest, or_blank, route_is, get_session_id,
  point_at, upsert, is_active, create_session, active_of, get_or_create_routed, serves,
  latest_session, id_of, find_for_ingress, get_or_create_for_ingress, resolve_by, resolve_session,
  find_by, find_session,
}

found_by :
    (db : StateDb) (req : NormalizedRequest) (id sid : String) (now : ℕ) (given : Option String)
    (peer : Option ChannelPeer)
    → find_by db req given peer ≡ some sid
    → resolve_by db req id now given peer ≡ ok (db, sid)
unfolding get_or_create_routed get_or_create_for_ingress
found_by db req id sid now (some s) peer h = ground arith
found_by db req id sid now none (some p) h = rw h
found_by db req id sid now none none h = rw h

point-route :
    (p : ChannelPeer) (g sid : String) (r : RouteRow)
    → route_is p r ≡ true
    → route_is p (record r { agent_group = g; session_id = sid }) ≡ true
point-route p g sid r h = h

point-none :
    (p : ChannelPeer) (g sid : String) (rs : List RouteRow)
    → any (route_is p) rs ≡ false
    → get_session_id (point_at p g sid rs) p ≡ none
unfolding get_session_id
point-none p g sid [] h = refl
point-none p g sid (r ∷ rs) h = elim (Bool-cases (route_is p r)) [
  | inl own ↦ absurd (ground (arith, own))
  | inr miss ↦ rw (miss, point-none p g sid rs (ground (arith, miss))) (ground (arith, miss))
]

pointed :
    (p : ChannelPeer) (g sid : String) (rs : List RouteRow)
    → any (route_is p) rs ≡ true
    → get_session_id (point_at p g sid rs) p ≡ some sid
unfolding get_session_id
pointed p g sid [] h = absurd (ground arith)
pointed p g sid (r ∷ rs) h = elim (Bool-cases (route_is p r)) [
  | inr miss ↦ rw (miss, pointed p g sid rs (ground (arith, miss)))
  | inl own ↦ elim (Bool-cases (any (route_is p) rs)) [
    | inl more ↦ rw (own, pointed p g sid rs more)
    | inr last ↦ rw (own, point-none p g sid rs last) (rw (own) refl)
  ]
]

appended :
    (p : ChannelPeer) (rs : List RouteRow) (r : RouteRow)
    → route_is p r ≡ true
    → get_session_id (rs ++ r ∷ []) p ≡ some r.session_id
unfolding get_session_id
appended p [] r h = rw h
appended p (x ∷ rs) r h = rw (appended p rs r h)

pub upserted :
    (p : ChannelPeer) (g sid : String) (rs : List RouteRow)
    → get_session_id (upsert rs p g sid) p ≡ some sid
unfolding upsert
upserted p g sid rs = elim (Bool-cases (any (route_is p) rs)) [
  | inl known ↦ rw known (pointed p g sid rs known)
  | inr fresh ↦ rw fresh (
      appended p rs _ (rw (eq_refl p.channel, eq_refl p.peer, eq_refl (or_blank p.thread_id)) refl))
]

unfoldable pub new_session : String → String → Option String → String → ℕ → SessionRow
new_session source agent_group user_id id now = record {
  id = id;
  source = source;
  agent_group = agent_group;
  user_id = user_id;
  started_at = now;
  ended_at = none;
  end_reason = none;
  message_count = 0;
}

pub created_parts :
    (db made : StateDb) (source agent_group id : String) (user_id : Option String) (now : ℕ)
    → create_session db source agent_group user_id id now ≡ ok made
    → (has_session id db.sessions ≡ false)
      × (made ≡ record db {
        sessions = db.sessions ++ new_session source agent_group user_id id now ∷ [];
      })
unfolding create_session new_session
created_parts db made source agent_group id user_id now h =
    elim (Bool-cases (has_session id db.sessions)) [
      | inl taken ↦ absurd (ground (arith, taken))
      | inr free ↦ (free, ground (arith, free))
    ]

pub any-last :
    (hit : SessionRow → Bool) (ss : List SessionRow) (s : SessionRow)
    → hit s ≡ true
    → any hit (ss ++ s ∷ []) ≡ true
any-last hit [] s h = rw h
any-last hit (x ∷ ss) s h = ground (arith, any-last hit ss s h)

pub new-active :
    (source g id : String) (user : Option String) (now : ℕ)
    → is_active id (new_session source g user id now) ≡ true
unfolding new_session
new-active source g id user now = rw (eq_refl id) refl

pub active-some :
    (sid : String) (ss : List SessionRow)
    → any (is_active sid) ss ≡ true
    → active_of ss (some sid) ≡ some sid
active-some sid ss h = rw h

routed_found :
    (db db' : StateDb) (p : ChannelPeer) (g : String) (k : IngressKind) (id sid : String) (now : ℕ)
    → get_or_create_routed db p g k id now ≡ ok (db', sid)
    → active_of db'.sessions (get_session_id db'.routes p) ≡ some sid
unfolding get_or_create_routed
routed_found db db' p g k id sid now h =
    elim (Option-cases (active_of db.sessions (get_session_id db.routes p))) [
      | inr (s, e) ↦
          let same : db ≡ db' = ground (arith, e) in
          let told : s ≡ sid = ground (arith, e) in
          subst (λ d. active_of d.sessions (get_session_id d.routes p) ≡ some sid) same
            (e ∙ ap some told)
      | inl e ↦ elim (Result-cases (create_session db (ingress_source k) g (some p.peer) id now)) [
        | inr (x, f) ↦ absurd (ground (arith, e, f))
        | inl (made, f) ↦
            let row = new_session (ingress_source k) g (some p.peer) id now in
            let next = record made { routes = upsert made.routes p g id } in
            let same : next ≡ db' = ground (arith, e, f) in
            let told : id ≡ sid = ground (arith, e, f) in
            let (free, grown) = created_parts db made (ingress_source k) g id (some p.peer) now f in
            let active : any (is_active id) made.sessions ≡ true =
              ap (λ (d : StateDb). any (is_active id) d.sessions) grown
              ∙ any-last (is_active id) db.sessions row
                  (new-active (ingress_source k) g id (some p.peer) now) in
            subst (λ (d : StateDb). active_of d.sessions (get_session_id d.routes p) ≡ some sid)
              same
              (ap (active_of made.sessions) (upserted p g id made.routes)
                ∙ active-some id made.sessions active
                ∙ ap some told)
      ]
    ]

new-id :
    (source g id : String) (user : Option String) (now : ℕ)
    → (new_session source g user id now).id ≡ id
unfolding new_session
new-id source g id user now = refl

latest-last :
    (hit : SessionRow → Bool) (ss : List SessionRow) (s : SessionRow)
    → id_of (latest_session hit ss) ≡ none
    → hit s ≡ true
    → id_of (latest_session hit (ss ++ s ∷ [])) ≡ some s.id
latest-last hit [] s h k = rw k
latest-last hit (x ∷ ss) s h k = elim (Bool-cases (hit x)) [
  | inl on ↦ absurd (ground (arith, on))
  | inr miss ↦ rw miss (latest-last hit ss s (ground (arith, miss)) k)
]

new-serves :
    (source g id : String) (user : Option String) (now : ℕ)
    → serves source g (new_session source g user id now) ≡ true
unfolding new_session
new-serves source g id user now = rw (eq_refl source, eq_refl g) refl

ingress_found :
    (db db' : StateDb) (g : String) (k : IngressKind) (id sid : String) (now : ℕ)
    → get_or_create_for_ingress db g k id now ≡ ok (db', sid)
    → find_for_ingress db'.sessions g k ≡ some sid
unfolding get_or_create_for_ingress
ingress_found db db' g k id sid now h = elim (Option-cases (find_for_ingress db.sessions g k)) [
  | inr (s, e) ↦
      let same : db ≡ db' = ground (arith, e) in
      let told : s ≡ sid = ground (arith, e) in
      subst (λ (d : StateDb). find_for_ingress d.sessions g k ≡ some sid) same (e ∙ ap some told)
  | inl e ↦ elim (Result-cases (create_session db (ingress_source k) g none id now)) [
    | inr (x, f) ↦ absurd (ground (arith, e, f))
    | inl (made, f) ↦
        let row = new_session (ingress_source k) g none id now in
        let same : made ≡ db' = ground (arith, e, f) in
        let told : id ≡ sid = ground (arith, e, f) in
        let (free, grown) = created_parts db made (ingress_source k) g id none now f in
        subst (λ (d : StateDb). find_for_ingress d.sessions g k ≡ some sid) (sym grown ∙ same)
          (latest-last (serves (ingress_source k) g) db.sessions row e
              (new-serves (ingress_source k) g id none now)
            ∙ ap some (new-id (ingress_source k) g id none now ∙ told))
  ]
]

resolved_by :
    (db db' : StateDb) (req : NormalizedRequest) (id sid : String) (now : ℕ) (given : Option String)
    (peer : Option ChannelPeer)
    → resolve_by db req id now given peer ≡ ok (db', sid)
    → find_by db' req given peer ≡ some sid
resolved_by db db' req id sid now (some s) peer h = ground arith
resolved_by db db' req id sid now none (some p) h =
    routed_found db db' p req.agent_group req.ingress id sid now h
resolved_by db db' req id sid now none none h =
    ingress_found db db' req.agent_group req.ingress id sid now h

-- A session that is found for a request is the one that the request is resolved to, and resolving it
-- changes nothing.
pub found_is_resolved :
    (db : StateDb) (req : NormalizedRequest) (id found : String) (now : ℕ)
    → find_session db req ≡ some found
    → resolve_session db req id now ≡ ok (db, found)
unfolding find_session resolve_session
found_is_resolved db req id found now h =
    found_by db req id found now req.session_id req.channel_peer h

-- The session that a request is resolved to, an old or a new one, is the one that is found for it from
-- then on.
pub resolved_is_found :
    (db db' : StateDb) (req : NormalizedRequest) (id sid : String) (now : ℕ)
    → resolve_session db req id now ≡ ok (db', sid)
    → find_session db' req ≡ some sid
unfolding find_session resolve_session
resolved_is_found db db' req id sid now h =
    resolved_by db db' req id sid now req.session_id req.channel_peer h
