-- ===== src/Types.antt =====
-- pkg/types/types.go. A `*bytes.Buffer` is never read from, so it is the bytes that it holds.
use mchat.Base.{List, [], ◌∷◌, not, Bytes, is_empty, if◌then◌else◌}

pub record Participant : Type 0 where
  pub username : Bytes
  pub password : Bytes
  pub email : Bytes
  pub join_time : Bytes

pub record ChatMessage : Type 0 where
  pub contents : Bytes
  pub sender : Bytes
  pub channel : Bytes
  pub sent_time : Bytes

pub record SysMessage : Type 0 where
  pub contents : Bytes
  pub recipient : Bytes
  pub sent_time : Bytes

pub record Channel : Type 0 where
  pub name : Bytes
  pub desc : Bytes
  pub creator : Bytes
  pub creation_date : Bytes
  pub chat_history : List ChatMessage
  pub members : List Bytes

-- `&types.Participant{}` and `&types.Channel{}`
abbrev pub no_participant : Participant
no_participant = record { username = []; password = []; email = []; join_time = [] }

abbrev pub no_channel : Channel
no_channel = record {
  name = [];
  desc = [];
  creator = [];
  creation_date = [];
  chat_history = [];
  members = [];
}

-- the first of some optional arguments, the empty text if there is none
abbrev pub first_or_empty : List Bytes → Bytes
first_or_empty [] = []
first_or_empty (s ∷ ss) = s

-- The last argument is what `TimeNowStr` returns.
unfoldable pub build_sys_msg : Bytes → List Bytes → Bytes → SysMessage
build_sys_msg msg recipients now =
    let recipient = if not (is_empty recipients) then first_or_empty recipients else [] in
    record { contents = msg; recipient = recipient; sent_time = now }

-- The test is on the length of `channel`, the result, and not of `channels`, the argument.
unfoldable pub build_chat_msg : Bytes → Bytes → List Bytes → Bytes → ChatMessage
build_chat_msg msg sender channels now =
    let channel : Bytes = [] in
    let chosen = if not (is_empty channel) then first_or_empty channels else channel in
    record { contents = msg; sender = sender; channel = chosen; sent_time = now }
