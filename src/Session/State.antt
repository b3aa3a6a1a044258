-- ===== src/Session/State.antt =====
-- The state that the goroutine of a connection works on (pkg/session/connection.go, reader.go and
-- session.go), and how its procedures end.
use mchat.Base.{ℕ, Bool, true, false, List, Option, none, some, Bytes, ◌==◌, ◌≡◌, ◌≢◌, refl, arith}
use mchat.Dict.{Dict}
use mchat.Types.{Participant, ChatMessage, SysMessage}
use mchat.Backend.Defs.{Backend, ChannelRef}

pub data ConnectionState : Type 0 where
  pending_state connected_state : ConnectionState

-- `connection`, without the timeout, which only the watcher reads. `is_watched` says that the
-- goroutine of `disconnectIfIdle` runs, and so that `abortConnectionTimeout` has a receiver.
pub record Connection : Type 0 where
  pub ip_addr : Bytes
  pub participant : Participant
  pub channel : ChannelRef
  pub is_cancelled : Bool
  pub is_closed : Bool
  pub is_watched : Bool
  pub state : ConnectionState

pub data ReaderState : Type 0 where
  state_null state_joining state_registration state_authentication : ReaderState
  state_accepting_messages state_creating_channel state_selecting_channel : ReaderState
  state_processing_menu state_disconnecting : ReaderState

pub data ReaderSubstate : Type 0 where
  substate_null substate_reading_name substate_reading_password : ReaderSubstate
  substate_reading_email_address substate_reading_channel_desc : ReaderSubstate

-- `readerFSM`, with the number of its connection. `newReader` turns the debug flag off, and nothing
-- turns it on.
pub record Reader : Type 0 where
  pub conn : ℕ
  pub state : ReaderState
  pub substate : ReaderSubstate
  pub buffer : Bytes

pub data Message : Type 0 where
  sys : SysMessage → Message
  chat : ChatMessage → Message

-- `session`, as the readers see it: a `*connection` is a number, at which `heap` has the object;
-- `connections` is the connection map; `sent` has what `sendMsg` handed over to `processMessages`,
-- the last one first; `readings` counts the readings of the clock and the ranges over maps.
pub record World (b : Backend) : Type 0 where
  pub heap : ℕ → Connection
  pub connections : Dict ℕ
  pub storage : b.Store
  pub sent : List Message
  pub readings : ℕ

pub record Thread (b : Backend) : Type 0 where
  pub reader : Reader
  pub open reader use *
  pub world : World b
  pub open world use *

-- How a procedure ends. A panic stops the server; a procedure that blocks waits for ever.
pub data Outcome {ℓ} (A : Type ℓ) : Type ℓ where
  done : A → Outcome A
  panics blocks : Outcome A

infixl 5 ◌>>=◌
abbrev pub ◌>>=◌ {ℓ κ} : {A : Type ℓ} {B : Type κ} → Outcome A → (A → Outcome B) → Outcome B
done a >>= f = f a
panics >>= f = panics
blocks >>= f = blocks

pub bind-eq-done {ℓ κ} :
    {A : Type ℓ} {B : Type κ} (m : Outcome A) (f : A → Outcome B) {c : B}
    → (m >>= f) ≡ done c
    → (a : A) × (m ≡ done a) × (f a ≡ done c)
bind-eq-done (done a) f h = (a, refl, h)
bind-eq-done panics f h = cc
bind-eq-done blocks f h = cc

-- a call that panics where it returns `none`
abbrev pub or_panic {ℓ} : {A : Type ℓ} → Option A → Outcome A
or_panic none = panics
or_panic (some a) = done a

-- `==` on the three enumerations
abbrev pub is_connected : ConnectionState → Bool
is_connected connected_state = true
is_connected pending_state = false

abbrev pub state_value : ReaderState → ℕ
state_value state_null = 0
state_value state_joining = 1
state_value state_registration = 2
state_value state_authentication = 3
state_value state_accepting_messages = 4
state_value state_creating_channel = 5
state_value state_selecting_channel = 6
state_value state_processing_menu = 7
state_value state_disconnecting = 8

unfoldable pub match_state : ReaderState → ReaderState → Bool
match_state a b = state_value a == state_value b

-- What neither panics nor blocks ends.
pub done_of {ℓ} : {A : Type ℓ} (m : Outcome A) → m ≢ panics → m ≢ blocks → (a : A) × (m ≡ done a)
done_of (done a) p b = (a, refl)
done_of panics p b = ground (arith, p)
done_of blocks p b = ground (arith, b)
