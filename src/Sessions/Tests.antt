-- ===== src/Sessions/Tests.antt =====
-- Sessions: the theorems at a concrete database.
use boba_claw.Prelude.{String, ◌≡◌, refl, none, [], ◌∷◌, codes, ok, arith}
use boba_claw.Prelude.{some, false, any, ◌≢◌}
use boba_claw.Sessions.Routes.{
  ChannelPeer, NormalizedRequest, telegram, find_session, resolve_session, get_session_id,
  get_or_create_routed, reset_routed_session, create_session, upsert, active_of, is_active,
}
use boba_claw.Sessions.Resolution.{resolved_is_found}
use boba_claw.Sessions.Reset.{reset_starts_fresh}
use boba_claw.Sessions.{StateDb, SessionRow, StoredMessage, insert_message}
use boba_claw.Sessions.Messages.{IsSound, insert-IsSound}

abbrev session : SessionRow
session = record {
  id = "s";
  source = "telegram";
  agent_group = "home";
  user_id = none;
  started_at = 0;
  ended_at = none;
  end_reason = none;
  message_count = 0;
}

abbrev fresh_db : StateDb
fresh_db = record { sessions = session ∷ []; messages = []; next_message_id = 1; routes = [] }

abbrev greeting : StoredMessage
greeting = record { id = 1; role = "user"; content = codes "hello"; covers_through_id = none }

abbrev greeted_db : StateDb
greeted_db = record fresh_db {
  sessions = record session { message_count = 1 } ∷ [];
  messages = record { session_id = "s"; message = greeting; timestamp = 5 } ∷ [];
  next_message_id = 2;
}

fresh_db-IsSound : IsSound fresh_db
fresh_db-IsSound = record { rising = ground arith; counted = ground arith }

greets : insert_message fresh_db "s" "user" (codes "hello") none 5 ≡ ok greeted_db
unfolding insert_message
greets = refl

insert-IsSound_example : IsSound greeted_db
insert-IsSound_example =
    insert-IsSound fresh_db greeted_db "s" "user" (codes "hello") none 5 greets fresh_db-IsSound

abbrev peer : ChannelPeer
peer = record { channel = "telegram"; peer = "7"; thread_id = none }

abbrev routed_db : StateDb
routed_db = record fresh_db {
  routes =
      record {
        channel = "telegram";
        peer = "7";
        thread_id = "";
        agent_group = "home";
        session_id = "s";
      }
      ∷ [];
}

abbrev request : NormalizedRequest
request = record {
  session_id = none;
  channel_peer = some peer;
  agent_group = "home";
  ingress = telegram;
}

finds : find_session routed_db request ≡ some "s"
unfolding find_session get_session_id
finds = refl

resolves : resolve_session routed_db request "t" 9 ≡ ok (routed_db, "s")
unfolding resolve_session get_or_create_routed get_session_id
resolves = refl

resolved_is_found_example : find_session routed_db request ≡ some "s"
resolved_is_found_example = resolved_is_found routed_db routed_db request "t" "s" 9 resolves

abbrev reset_db : StateDb
reset_db = record routed_db {
  sessions =
      record session { ended_at = some 9; end_reason = some "channel_new" }
      ∷ record session { id = "t"; user_id = some "7"; started_at = 9 }
      ∷ [];
  routes =
      record {
        channel = "telegram";
        peer = "7";
        thread_id = "";
        agent_group = "home";
        session_id = "t";
      }
      ∷ [];
}

abbrev id_t : String
id_t = "t"

resets : reset_routed_session routed_db peer "home" telegram "t" 9 ≡ ok (reset_db, 1, "t")
unfolding reset_routed_session get_or_create_routed get_session_id create_session upsert
resets = refl

reset_starts_fresh_example :
    (id_t ≡ id_t)
    × (id_t ≢ "s")
    × (active_of reset_db.sessions (get_session_id reset_db.routes peer) ≡ some id_t)
    × (any (is_active "s") reset_db.sessions ≡ false)
unfolding get_session_id
reset_starts_fresh_example =
    reset_starts_fresh routed_db reset_db peer "home" telegram id_t id_t "s" 9 1 refl refl resets
