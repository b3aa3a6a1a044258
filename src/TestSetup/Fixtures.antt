-- ===== src/TestSetup/Fixtures.antt =====
-- The data of the tests (pkg/testsetup/testing.go). A field that is not given is empty.
use Prim.Native.String.{String}
use mchat.Base.{List, [], ◌∷◌, Bytes, codes}
use mchat.Runtime.{Runtime}
use mchat.Types.{Participant, ChatMessage, Channel}

abbrev participant : String → String → String → Bytes → Participant
participant username password email join_time = record {
  username = codes username;
  password = codes password;
  email = codes email;
  join_time = join_time;
}

-- `Participants`, each with a reading of the clock
abbrev pub participants : Runtime → List Participant
participants rt =
    participant "IvanIvanov" "ThisIsI1sPassw0rd@" "example@gmail.com" (rt.time_now_str 0)
    ∷ participant "MarkLutz" "Some_other_password@234" "mark@mail.ru" (rt.time_now_str 1)
    ∷ participant "nasayer1234" "nasayerLive234@Outline" "nasayer@gmail.com" (rt.time_now_str 2)
    ∷ participant "anonymus__" "SomeRandomPass8ordHere" "anonymus@mail.ru" (rt.time_now_str 3)
    ∷ []

abbrev channel : String → String → String → Channel
channel name desc creator = record {
  name = codes name;
  desc = codes desc;
  creator = codes creator;
  creation_date = [];
  chat_history = [];
  members = [];
}

-- `Channels`
abbrev pub channels : List Channel
channels =
    channel "BooksChannel" "Channel to shared sci-fy books" "Sarah Obrian"
    ∷ channel "ProgrammingChannel" "Channel for sharing programming related things" "Anna Herman"
    ∷ []

-- the helper `message` makes a buffer with the text
abbrev message : String → String → Bytes → ChatMessage
message contents sender channel = record {
  contents = codes contents;
  sender = codes sender;
  channel = channel;
  sent_time = [];
}

-- `BooksChannelMessages`
abbrev pub books_channel_messages : List ChatMessage
books_channel_messages =
    message
      "Hi everyone, this is my first message in this channel, I'm so exited about any kinds of books."
      "Mark Obrian" (codes "BooksChannel")
    ∷ message
        "Hi Mark! What kinds of books have you read so far? We all cannot wait to hear.Fill free to post it in the channel."
        "Olivia" (codes "BooksChannel")
    ∷ message "Nice to meet you Mark!!!" "John Nilson" (codes "BooksChannel")
    ∷ []

-- `ProgrammingChannelMessages`
abbrev pub programming_channel_messages : List ChatMessage
programming_channel_messages =
    message "H! I'm a new joiner. I'm passionate about Go programming language" "Myself"
      (codes "ProgrammingChannel")
    ∷ message
        "Hello. That's great to hear, what other languages you're passionate about?I've heard that you're pretty good at C++ and Python as well."
        "Niklas" (codes "ProgrammingChannel")
    ∷ message
        "Well yes, you're absolutely right, I'm fluent in C++ and Python as well, but currently I write all my hobby projects in Golang. Since I want to focus on cloud native development."
        "Myself" (codes "ProgrammingChannel")
    ∷ []

-- `GeneralMessages`
abbrev pub general_messages : List ChatMessage
general_messages =
    message
      "Hello! It has been a while since we met for the last time.I was missing you a lot and cannot wait to spend some time together."
      "Elizabeth Swann" []
    ∷ []
