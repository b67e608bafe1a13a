-- ===== src/Sessions/Messages.antt =====
-- The messages table: what an insertion changes, and the order of the ids.
use boba_claw.Prelude.{
  ℕ, ◌+◌, ◌≤◌, ◌≡◌, refl, ap, ◌∙◌, inl, inr, String, str_eq, Option, List, [], ◌∷◌, ◌++◌, map,
  map-append, if◌then◌else◌, count, count-append, eq_iff, All, Bool-cases, Text, ok, arith,
}
use boba_claw.Sessions.{
  StateDb, StoredMessage, MessageRow, SessionRow, row_of, has_session, count_message,
  insert_message, session_messages, list_stored_messages,
}

-- Ids rise along the list, from `lo` on and below `hi`.
abbrev pub Rising : ℕ → ℕ → List StoredMessage → Type 0
Rising lo hi [] = lo ≤ hi
Rising lo hi (r ∷ rs) = (lo ≤ r.id) × Rising (r.id + 1) hi rs

abbrev pub all_messages : StateDb → List StoredMessage
all_messages db = map (λ r. r.message) db.messages

Rising-weaken : (k lo hi : ℕ) (rs : List StoredMessage) → k ≤ lo → Rising lo hi rs → Rising k hi rs
Rising-weaken k lo hi [] h r = omega arith
Rising-weaken k lo hi (x ∷ rs) h r = (omega arith, r.1)

Rising-append :
    (lo hi : ℕ) (rs : List StoredMessage) (m : StoredMessage)
    → m.id ≡ hi
    → Rising lo hi rs
    → Rising lo (hi + 1) (rs ++ m ∷ [])
Rising-append lo hi [] m e r = (omega arith, omega arith)
Rising-append lo hi (x ∷ rs) m e r = (r.0, Rising-append (x.id + 1) hi rs m e r.1)

pub Rising-session :
    (sid : String) (lo hi : ℕ) (rows : List MessageRow)
    → Rising lo hi (map (λ r. r.message) rows)
    → Rising lo hi (session_messages sid rows)
Rising-session sid lo hi [] r = r
Rising-session sid lo hi (x ∷ rows) r = elim (Bool-cases (row_of sid x)) [
  | inl own ↦ rw own (r.0, Rising-session sid (x.message.id + 1) hi rows r.1)
  | inr other ↦ rw other (
      Rising-weaken lo (x.message.id + 1) hi (session_messages sid rows) (omega arith)
        (Rising-session sid (x.message.id + 1) hi rows r.1))
]

abbrev pub new_message : StateDb → String → Text → Option ℕ → StoredMessage
new_message db role content covers = record {
  id = db.next_message_id;
  role = role;
  content = content;
  covers_through_id = covers;
}

session_messages-append :
    (s : String) (rows : List MessageRow) (r : MessageRow)
    → session_messages s (rows ++ r ∷ [])
      ≡ session_messages s rows ++ (if str_eq r.session_id s then r.message ∷ [] else [])
session_messages-append s [] r = ground arith
session_messages-append s (x ∷ rows) r = ground (arith, session_messages-append s rows r)

abbrev pub new_row : StateDb → String → String → Text → Option ℕ → ℕ → MessageRow
new_row db sid role content covers now = record {
  session_id = sid;
  message = new_message db role content covers;
  timestamp = now;
}

pub insert_parts :
    (db db' : StateDb) (sid role : String) (content : Text) (covers : Option ℕ) (now : ℕ)
    → insert_message db sid role content covers now ≡ ok db'
    → (db'.messages ≡ db.messages ++ new_row db sid role content covers now ∷ [])
      × (db'.next_message_id ≡ db.next_message_id + 1)
      × (db'.sessions ≡ count_message sid db.sessions)
      × (db'.routes ≡ db.routes)
unfolding insert_message
insert_parts db db' sid role content covers now h =
    elim (Bool-cases (has_session sid db.sessions)) [
      | inl known ↦ (
        ground (arith, known),
        ground (arith, known),
        ground (arith, known),
        ground (arith, known),
      )
      | inr unknown ↦ absurd (ground (arith, unknown))
    ]

-- An insertion that succeeds appends the message, under the next id, to its session's history, and
-- changes no other session's history.
pub insert_message_lem :
    (db db' : StateDb) (sid role : String) (content : Text) (covers : Option ℕ) (now : ℕ)
    → insert_message db sid role content covers now ≡ ok db'
    → (s : String)
    → list_stored_messages db' s
      ≡ list_stored_messages db s
        ++ (if str_eq sid s then new_message db role content covers ∷ [] else [])
unfolding list_stored_messages
insert_message_lem db db' sid role content covers now h s =
    ap (session_messages s) (insert_parts db db' sid role content covers now h).0
    ∙ session_messages-append s db.messages (new_row db sid role content covers now)

-- `message_count` is the number of the session's messages.
abbrev pub Counted : List MessageRow → SessionRow → Type 0
Counted rows s = s.message_count ≡ count (row_of s.id) rows

counts :
    (sid : String) (rows : List MessageRow) (r : MessageRow) (ss : List SessionRow)
    → r.session_id ≡ sid
    → All (Counted rows) ss
    → All (Counted (rows ++ r ∷ [])) (count_message sid ss)
counts sid rows r [] e a = tt
counts sid rows r (s ∷ ss) e a = (
  ground
      (arith, count-append (row_of s.id) rows (r ∷ []), eq_iff s.id sid, eq_iff r.session_id s.id),
  counts sid rows r ss e a.1,
)

-- The ids rise along the table and are below the next one; the counters are right.
pub record IsSound (db : StateDb) : Type 0 where
  pub rising : Rising 1 db.next_message_id (all_messages db)
  pub counted : All (Counted db.messages) db.sessions

-- An insertion that succeeds keeps the ids rising below the next one, and keeps every session's
-- `message_count` equal to the number of its messages.
pub insert-IsSound :
    (db db' : StateDb) (sid role : String) (content : Text) (covers : Option ℕ) (now : ℕ)
    → insert_message db sid role content covers now ≡ ok db'
    → IsSound db
    → IsSound db'
insert-IsSound db db' sid role content covers now h v =
    let (rows, next, sessions, routes) = insert_parts db db' sid role content covers now h in
    record {
      rising =
          rw (rows, next, map-append (λ (r : MessageRow). r.message) db.messages)
            (Rising-append 1 db.next_message_id (all_messages db)
              (new_message db role content covers) refl v.rising);
      counted =
          rw (rows, sessions)
            (counts sid db.messages (new_row db sid role content covers now) db.sessions refl
              v.counted);
    }
