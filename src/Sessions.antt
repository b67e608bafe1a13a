-- ===== src/Sessions.antt =====
-- crates/bobaclaw-state/src/session.rs and routes.rs: sessions, their messages and the routes from
-- channel peers to sessions.
--
-- `StateDb` holds the tables that these files read and write, each as the list of its rows in the
-- order of insertion; a function for each method runs its SQL statements. The clock and a fresh
-- uuid are arguments (`now`, in milliseconds, and `uuid`). A statement that breaks a constraint of
-- migrations/ (a duplicate key, a message of an unknown session) is an error.
pub mod Messages
pub mod Routes
pub mod Resolution
pub mod Reset
pub mod Tests
use boba_claw.Prelude.{
  ℕ, suc, ◌+◌, ◌-◌, String, str_eq, Bool, true, false, not, ◌&&◌, ◌||◌, Option, none, some, List,
  [], ◌∷◌, ◌++◌, map, reverse, if◌then◌else◌, ltb, leb, ◌==◌, length, take, drop, keep, any, count,
  Text, codes, Result, ok, err, ◌>>=◌,
}

pub record StoredMessage : Type 0 where
  pub id : ℕ
  pub role : String
  pub content : Text
  pub covers_through_id : Option ℕ

pub record MessageRow : Type 0 where
  pub session_id : String
  pub message : StoredMessage
  pub timestamp : ℕ

pub record SessionRow : Type 0 where
  pub id : String
  pub source : String
  pub agent_group : String
  pub user_id : Option String
  pub started_at : ℕ
  pub ended_at : Option ℕ
  pub end_reason : Option String
  pub message_count : ℕ

pub record RouteRow : Type 0 where
  pub channel : String
  pub peer : String
  pub thread_id : String
  pub agent_group : String
  pub session_id : String

pub record StateDb : Type 0 where
  pub sessions : List SessionRow
  pub messages : List MessageRow
  pub next_message_id : ℕ
  pub routes : List RouteRow

pub data SqlError : Type 0 where
  foreign_key unique : SqlError

abbrev pub row_of : String → MessageRow → Bool
row_of sid r = str_eq r.session_id sid

abbrev pub session_is : String → SessionRow → Bool
session_is sid s = str_eq s.id sid

abbrev pub has_session : String → List SessionRow → Bool
has_session sid = any (session_is sid)

-- `UPDATE sessions SET message_count = message_count + 1 WHERE id = ?1`
abbrev pub count_message : String → List SessionRow → List SessionRow
count_message sid [] = []
count_message sid (s ∷ ss) =
    (if session_is sid s then record s { message_count = s.message_count + 1 } else s)
    ∷ count_message sid ss

-- `SessionStore::insert_message`
unfoldable pub insert_message :
    StateDb → String → String → Text → Option ℕ → ℕ → Result SqlError StateDb
insert_message db sid role content covers now =
    if has_session sid db.sessions
    then ok (record db {
      messages =
          db.messages
          ++ record {
            session_id = sid;
            message = record {
              id = db.next_message_id;
              role = role;
              content = content;
              covers_through_id = covers;
            };
            timestamp = now;
          }
            ∷ [];
      next_message_id = db.next_message_id + 1;
      sessions = count_message sid db.sessions;
    })
    else err foreign_key

unfoldable pub append_message : StateDb → String → String → Text → ℕ → Result SqlError StateDb
unfolding insert_message
append_message db sid role content now = insert_message db sid role content none now

unfoldable pub append_compaction : StateDb → String → Text → ℕ → ℕ → Result SqlError StateDb
unfolding insert_message
append_compaction db sid content covers now =
    insert_message db sid "compaction" content (some covers) now

-- `SELECT … FROM messages WHERE session_id = ?1 ORDER BY id ASC`
abbrev pub session_messages : String → List MessageRow → List StoredMessage
session_messages sid rows = map (λ r. r.message) (keep (row_of sid) rows)

unfoldable pub list_stored_messages : StateDb → String → List StoredMessage
list_stored_messages db sid = session_messages sid db.messages

abbrev pub to_pair : StoredMessage → String × Text
to_pair m = (m.role, m.content)

unfoldable pub list_messages : StateDb → String → List (String × Text)
list_messages db sid = map to_pair (session_messages sid db.messages)

-- `ORDER BY id DESC LIMIT ?2`, then reversed.
unfoldable pub recent_messages : StateDb → String → ℕ → List (String × Text)
recent_messages db sid limit =
    reverse (take limit (reverse (map to_pair (session_messages sid db.messages))))

unfoldable pub count_user_messages : StateDb → String → ℕ
count_user_messages db sid = count (λ m. str_eq m.role "user") (session_messages sid db.messages)
