-- ===== src/Backend/Redis/Fields.antt =====
-- The keys of the database in pkg/backend/redis/redis.go, and the structs as the fields of a hash.
-- Reflection goes through the fields of a struct in their order.
use mchat.Base.{not, List, [], ◌∷◌, ◌++◌, Option, none, some, Bytes, codes, is_empty, if◌then◌else◌}
use mchat.Dict.{Dict, lookup}
use mchat.Types.{Participant, ChatMessage, Channel}
use mchat.Backend.Redis.Client.{or_empty}

abbrev pub participants_key : Bytes
participants_key = codes "participants:"

abbrev pub channels_key : Bytes
channels_key = codes "channels:"

abbrev pub general_key : Bytes
general_key = codes "messages/general:"

-- "messages/" + channel + ":"
unfoldable pub messages_key : Bytes → Bytes
messages_key channel = codes "messages/" ++ (channel ++ (b':' ∷ []))

-- The names and values of the fields; the second one of a participant is the digest.
abbrev pub participant_fields : Participant → Bytes → List (Bytes × Bytes)
participant_fields p password_hash =
    (codes "Username", p.username)
    ∷ (codes "Password", password_hash)
    ∷ (codes "Email", p.email)
    ∷ (codes "JoinTime", p.join_time)
    ∷ []

abbrev pub message_fields : ChatMessage → List (Bytes × Bytes)
message_fields m =
    (codes "Contents", m.contents)
    ∷ (codes "Sender", m.sender)
    ∷ (codes "Channel", m.channel)
    ∷ (codes "SentTime", m.sent_time)
    ∷ []

-- without the history and the members
abbrev pub channel_fields : Channel → List (Bytes × Bytes)
channel_fields ch =
    (codes "Name", ch.name)
    ∷ (codes "Desc", ch.desc)
    ∷ (codes "Creator", ch.creator)
    ∷ (codes "CreationDate", ch.creation_date)
    ∷ []

-- `data[fieldname]`
abbrev pub field : Dict Bytes → Bytes → Bytes
field values name = or_empty (lookup values name)

unfoldable pub participant_of : Dict Bytes → Participant
participant_of values = record {
  username = field values (codes "Username");
  password = field values (codes "Password");
  email = field values (codes "Email");
  join_time = field values (codes "JoinTime");
}

unfoldable pub message_of : Dict Bytes → ChatMessage
message_of values = record {
  contents = field values (codes "Contents");
  sender = field values (codes "Sender");
  channel = field values (codes "Channel");
  sent_time = field values (codes "SentTime");
}

unfoldable pub channel_of : Dict Bytes → Channel
channel_of values = record {
  name = field values (codes "Name");
  desc = field values (codes "Desc");
  creator = field values (codes "Creator");
  creation_date = field values (codes "CreationDate");
  chat_history = [];
  members = [];
}

-- a loop that panics where a hash is missing
unfoldable pub read_all {ℓ} :
    {A : Type ℓ} → (Dict Bytes → A) → (Bytes → Dict Bytes) → List Bytes → Option (List A)
read_all of hash_at [] = some []
read_all of hash_at (k ∷ ks) =
    let rest = read_all of hash_at ks in
    if is_empty (hash_at k)
    then none
    else elim rest [ none ↦ none | some items ↦ some (of (hash_at k) ∷ items) ]

-- the sender and what `time.Now().Format(time.DateTime)` returns
unfoldable pub message_id : ChatMessage → Bytes → Bytes
message_id m now = m.sender ++ (b':' ∷ now)

unfoldable pub history_key : Bytes → Bytes
unfolding messages_key
history_key channel = if not (is_empty channel) then messages_key channel else general_key

-- `channelname[0]`, if there is one
abbrev pub asked : List Bytes → Bytes
asked [] = []
asked (name ∷ names) = name
