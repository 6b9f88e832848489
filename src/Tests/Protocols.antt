-- ===== src/Tests/Protocols.antt =====
-- What a user's object hears, at an object that notes the calls it gets.
use slicksocket.Base.{ℕ, ◌≡◌, true, false, some, List, [], ◌∷◌, length}
use slicksocket.Request.{Event, Reason, raw_rx, raw_adopt, raw_close}
use slicksocket.Server.Serving.{serve}
use slicksocket.Server.Protocol.{serve-hears}
use slicksocket.Callback.{ClientCallback, SocketServerCallback}
use slicksocket.Callback.Replay.{server_replay}
use slicksocket.Tests.{zeros16, event}

-- The latest call first: 100 for a connection, 200 for its end, 300 for an error, and else the length
-- of the data.
abbrev notes : ClientCallback (List ℕ)
notes = record {
  on_connected = λ l. 100 ∷ l;
  on_disconnected = λ l. 200 ∷ l;
  on_error = λ msg len l. 300 ∷ l;
  on_data = λ input len remaining l. len ∷ l;
}

abbrev data_of : Reason → ℕ → Event
data_of reason n = record { reason = reason; input = some (7 ∷ []); len = n; remaining = 0 }

abbrev server_notes : SocketServerCallback (List ℕ)
server_notes = record {
  on_client_connected = λ w l. 100 ∷ l;
  on_client_disconnected = λ w l. 200 ∷ l;
  on_error = λ w msg len l. 300 ∷ l;
  on_data = λ w input len l. len ∷ l;
}

serve-hears_example :
    server_replay server_notes
      (serve length zeros16 true []
        (record {
          stopped = false;
          events = (5, event raw_adopt) ∷ (5, data_of raw_rx 3) ∷ [];
          fails = false;
        }
          ∷ record { stopped = false; events = []; fails = true }
          ∷ [])
        ((5, event raw_close) ∷ [])).1
      []
    ≡ 200 ∷ 3 ∷ 100 ∷ []
serve-hears_example =
    serve-hears server_notes [] length zeros16 true []
      (record {
        stopped = false;
        events = (5, event raw_adopt) ∷ (5, data_of raw_rx 3) ∷ [];
        fails = false;
      }
        ∷ record { stopped = false; events = []; fails = true }
        ∷ [])
      ((5, event raw_close) ∷ [])
