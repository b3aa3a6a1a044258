-- ===== src/Session/Examples/Crashes.antt =====
-- A client that selects a channel, begins to create another one, and selects the channel again: the
-- new name went to the stored channel, and the server stops.
use mchat.Base.{◌≡◌, refl, List, [], ◌∷◌}
use mchat.TestRuntime.{test_runtime}
use mchat.Backend.Memory.{get_channels, load, save}
use mchat.Session.Chat.{on_select_channel_state, select_channel}
use mchat.Session.State.{panics}
use mchat.Session.Input.{ReadEvent}
use mchat.Session.Loop.{round}
use mchat.Session.Server.{accept, thread}
use mchat.Session.Examples.{TestThread, run, typed}
use mchat.Session.Examples.Sessions.{TestServer, play, both_in, the_reader, first_conn}

abbrev typed_lines : List ReadEvent
typed_lines =
    typed ":menu"
    ∷ typed "3"
    ∷ typed "BooksChannel"
    ∷ typed "about books"
    ∷ typed ":menu"
    ∷ typed "3"
    ∷ typed "MusicChannel"
    ∷ typed "about music"
    ∷ typed ":menu"
    ∷ typed "4"
    ∷ typed "1"
    ∷ typed ":menu"
    ∷ typed "3"
    ∷ typed "FilmsChannel"
    ∷ typed ":menu"
    ∷ typed "4"
    ∷ []

abbrev renamed : TestServer
renamed = play both_in first_conn (the_reader (both_in.readers first_conn)) typed_lines

abbrev renamed_thread : TestThread
renamed_thread = thread (the_reader (renamed.readers first_conn)) renamed.world

renamed_panics :
    round test_runtime (thread (the_reader (renamed.readers first_conn)) renamed.world) (typed "1")
    ≡ panics
unfolding run accept get_channels on_select_channel_state select_channel load save
renamed_panics = refl
