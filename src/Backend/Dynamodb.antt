-- ===== src/Backend/Dynamodb.antt =====
-- pkg/backend/dynamodb/dynamodb.go: every method is a stub.
use mchat.Base.{refl, false, [], some, equal_refl}
use mchat.Types.{no_participant, no_channel}
use mchat.Backend.Defs.{Backend}
use mchat.Backend.Contract.{IsBackend}

unfoldable pub dynamodb_backend : Backend
dynamodb_backend = record {
  Store = Unit {0};
  has_participant = λ d username. false;
  register_participant = λ d participant. some d;
  auth_participant = λ d participant. false;
  store_message = λ d message. some d;
  has_channel = λ d channelname. false;
  register_channel = λ d channel. some d;
  delete_channel = λ d channelname. some (d, false);
  get_chat_history = λ d channelname. some [];
  get_channels = λ n d. some [];
  get_participants = λ n d. some [];
  load = λ d key. no_channel;
  save = λ d key channel. d;
}

-- The stub does not keep the contract of the storages: a participant that was registered is not
-- there.
pub dynamodb_backend-not-IsBackend : ¬ IsBackend dynamodb_backend
unfolding dynamodb_backend
dynamodb_backend-not-IsBackend h =
    cc (h.keeps_names.has-register tt tt no_participant [] refl, equal_refl [])
