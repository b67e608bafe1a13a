-- ===== src/Sessions/Routes.antt =====
-- Which session a request goes to: the routing of session.rs, and routes.rs.
--
-- The uuid and the clock are arguments. Of several rows of one `started_at` the first is taken.
use boba_claw.Prelude.{
  ℕ, String, str_eq, Bool, true, false, ◌&&◌, Option, none, some, List, [], ◌∷◌, ◌++◌,
  if◌then◌else◌, ltb, any, count, Result, ok, err, ◌>>=◌,
}
use boba_claw.Sessions.{StateDb, SessionRow, RouteRow, SqlError, unique, session_is, has_session}

pub data IngressKind : Type 0 where
  cli rest openai_compat cron webhook chat telegram web spawn_wake : IngressKind

abbrev pub ingress_source : IngressKind → String
ingress_source cli = "cli"
ingress_source rest = "rest"
ingress_source openai_compat = "openai_compat"
ingress_source cron = "cron"
ingress_source webhook = "webhook"
ingress_source chat = "chat"
ingress_source telegram = "telegram"
ingress_source web = "web"
ingress_source spawn_wake = "spawn_wake"

pub record ChannelPeer : Type 0 where
  pub channel : String
  pub peer : String
  pub thread_id : Option String

-- The fields of `NormalizedRequest` that the routing reads.
pub record NormalizedRequest : Type 0 where
  pub session_id : Option String
  pub channel_peer : Option ChannelPeer
  pub agent_group : String
  pub ingress : IngressKind

abbrev pub or_blank : Option String → String
or_blank none = ""
or_blank (some s) = s

abbrev pub route_is : ChannelPeer → RouteRow → Bool
route_is p r =
    str_eq r.channel p.channel && str_eq r.peer p.peer && str_eq r.thread_id (or_blank p.thread_id)

abbrev pub or_this {ℓ} : {A : Type ℓ} → Option A → Option A → Option A
or_this none d = d
or_this (some a) d = some a

-- `ORDER BY id DESC LIMIT 1`
unfoldable pub get_session_id : List RouteRow → ChannelPeer → Option String
get_session_id [] p = none
get_session_id (r ∷ rs) p =
    or_this (get_session_id rs p) (if route_is p r then some r.session_id else none)

abbrev pub point_at : ChannelPeer → String → String → List RouteRow → List RouteRow
point_at p agent_group sid [] = []
point_at p agent_group sid (r ∷ rs) =
    (if route_is p r then record r { agent_group = agent_group; session_id = sid } else r)
    ∷ point_at p agent_group sid rs

-- `INSERT … ON CONFLICT(channel, peer, thread_id) DO UPDATE`
unfoldable pub upsert : List RouteRow → ChannelPeer → String → String → List RouteRow
upsert rs p agent_group sid =
    if any (route_is p) rs
    then point_at p agent_group sid rs
    else rs
      ++ record {
        channel = p.channel;
        peer = p.peer;
        thread_id = or_blank p.thread_id;
        agent_group = agent_group;
        session_id = sid;
      }
        ∷ []

abbrev pub is_open : Option ℕ → Bool
is_open none = true
is_open (some t) = false

abbrev pub is_active : String → SessionRow → Bool
is_active sid s = session_is sid s && is_open s.ended_at

-- `create_session_for_route` and the insertion of `create_session`.
unfoldable pub create_session :
    StateDb → String → String → Option String → String → ℕ → Result SqlError StateDb
create_session db source agent_group user_id id now =
    if has_session id db.sessions
    then err unique
    else ok (record db {
      sessions =
          db.sessions
          ++ record {
            id = id;
            source = source;
            agent_group = agent_group;
            user_id = user_id;
            started_at = now;
            ended_at = none;
            end_reason = none;
            message_count = 0;
          }
            ∷ [];
    })

-- The route's session, if it has not ended.
abbrev pub active_of : List SessionRow → Option String → Option String
active_of ss none = none
active_of ss (some sid) = if any (is_active sid) ss then some sid else none

abbrev pub or_routed :
    StateDb
    → ChannelPeer
    → String
    → IngressKind
    → String
    → ℕ
    → Option String
    → Result SqlError (StateDb × String)
or_routed db p agent_group ingress id now (some sid) = ok (db, sid)
or_routed db p agent_group ingress id now none = do
  made ← create_session db (ingress_source ingress) agent_group (some p.peer) id now
  ok (record made { routes = upsert made.routes p agent_group id }, id)

unfoldable pub get_or_create_routed :
    StateDb → ChannelPeer → String → IngressKind → String → ℕ → Result SqlError (StateDb × String)
get_or_create_routed db p agent_group ingress id now =
    or_routed db p agent_group ingress id now (active_of db.sessions (get_session_id db.routes p))

abbrev pub serves : String → String → SessionRow → Bool
serves source agent_group s =
    str_eq s.source source && str_eq s.agent_group agent_group && is_open s.ended_at

-- `ORDER BY started_at DESC LIMIT 1`
abbrev pub later_session : SessionRow → Option SessionRow → SessionRow
later_session s none = s
later_session s (some t) = if ltb s.started_at t.started_at then t else s

abbrev pub latest_session : (SessionRow → Bool) → List SessionRow → Option SessionRow
latest_session hit [] = none
latest_session hit (s ∷ ss) =
    if hit s then some (later_session s (latest_session hit ss)) else latest_session hit ss

abbrev pub id_of : Option SessionRow → Option String
id_of none = none
id_of (some s) = some s.id

abbrev pub find_for_ingress : List SessionRow → String → IngressKind → Option String
find_for_ingress ss agent_group ingress =
    id_of (latest_session (serves (ingress_source ingress) agent_group) ss)

abbrev pub or_created :
    StateDb → String → IngressKind → String → ℕ → Option String → Result SqlError (StateDb × String)
or_created db agent_group ingress id now (some sid) = ok (db, sid)
or_created db agent_group ingress id now none = do
  made ← create_session db (ingress_source ingress) agent_group none id now
  ok (made, id)

unfoldable pub get_or_create_for_ingress :
    StateDb → String → IngressKind → String → ℕ → Result SqlError (StateDb × String)
get_or_create_for_ingress db agent_group ingress id now =
    or_created db agent_group ingress id now (find_for_ingress db.sessions agent_group ingress)

abbrev pub resolve_by :
    StateDb
    → NormalizedRequest
    → String
    → ℕ
    → Option String
    → Option ChannelPeer
    → Result SqlError (StateDb × String)
resolve_by db req id now (some sid) peer = ok (db, sid)
resolve_by db req id now none (some p) =
    get_or_create_routed db p req.agent_group req.ingress id now
resolve_by db req id now none none = get_or_create_for_ingress db req.agent_group req.ingress id now

unfoldable pub resolve_session :
    StateDb → NormalizedRequest → String → ℕ → Result SqlError (StateDb × String)
resolve_session db req id now = resolve_by db req id now req.session_id req.channel_peer

abbrev pub find_by :
    StateDb → NormalizedRequest → Option String → Option ChannelPeer → Option String
find_by db req (some sid) peer = some sid
find_by db req none (some p) = active_of db.sessions (get_session_id db.routes p)
find_by db req none none = find_for_ingress db.sessions req.agent_group req.ingress

unfoldable pub find_session : StateDb → NormalizedRequest → Option String
find_session db req = find_by db req req.session_id req.channel_peer

-- `UPDATE sessions SET ended_at = …, end_reason = … WHERE …`
abbrev pub end_where : (SessionRow → Bool) → String → ℕ → List SessionRow → List SessionRow
end_where hit reason now [] = []
end_where hit reason now (s ∷ ss) =
    (if hit s then record s { ended_at = some now; end_reason = some reason } else s)
    ∷ end_where hit reason now ss

unfoldable pub end_active_cli_sessions : StateDb → String → ℕ → StateDb × ℕ
end_active_cli_sessions db agent_group now = (
  record db { sessions = end_where (serves "cli" agent_group) "interactive_new" now db.sessions },
  count (serves "cli" agent_group) db.sessions,
)

abbrev pub end_routed : StateDb → ℕ → Option String → StateDb × ℕ
end_routed db now none = (db, 0)
end_routed db now (some sid) = (
  record db { sessions = end_where (is_active sid) "channel_new" now db.sessions },
  count (is_active sid) db.sessions,
)

unfoldable pub reset_routed_session :
    StateDb
    → ChannelPeer
    → String
    → IngressKind
    → String
    → ℕ
    → Result SqlError (StateDb × ℕ × String)
reset_routed_session db p agent_group ingress id now = do
  let ended = end_routed db now (get_session_id db.routes p)
  (db', sid) ← get_or_create_routed ended.0 p agent_group ingress id now
  ok (db', ended.1, sid)
