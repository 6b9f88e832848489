-- ===== src/Tests/WebSockets.antt =====
-- The theorems on `websocket_client` at concrete requests.
use slicksocket.Base.{◌≡◌, ◌⊎◌, refl, true, none, some, [], ◌∷◌, ◌++◌, arith, length}
use slicksocket.StringRing.{StringRing}
use slicksocket.StringRing.View.{IsReady}
use slicksocket.Request.{
  RequestInfo, ws, client_writeable, client_closed, callback_on_writable, cancel_service,
}
use slicksocket.WebSocket.{done, send, put_buffer, writeable}
use slicksocket.WebSocket.Sending.{send-IsReady, Sends, writeable-Sends}
use slicksocket.WebSocket.Connection.{run}
use slicksocket.WebSocket.Stopping.{stop-hears_nothing}
use slicksocket.WebSocket.Client.Parsing.{parse-short_host}
use slicksocket.Service.{Service, fate, releases}
use slicksocket.WebSocket.Client.{WebSocketClient, stop, parse, root, ws_text, wss_text, separator}
use slicksocket.Tests.{
  empty_ring, full_ring, empty-IsReady, full-IsReady, connected, event, service,
}

send-IsReady_example :
    (s : StringRing) × (send true 2 (some (connected ws empty_ring)) (9 ∷ []) [] []
      ≡ done true
          (some (put_buffer (connected ws empty_ring) s))
          (callback_on_writable ∷ cancel_service ∷ []))
    × IsReady s ((48 ∷ 0 ∷ 9 ∷ []) ∷ [])
send-IsReady_example =
    send-IsReady true 2 (9 ∷ []) [] [] refl empty-IsReady (omega arith) (omega arith) (record {
      is_short = record { some_bytes = omega arith; short = omega arith; counted = omega arith };
      is_free = omega arith;
      unfilled = omega arith;
    })

writeable-Sends_example :
    Sends (9 ∷ []) [] (writeable length 2 (connected ws full_ring) 0)
    ⊎ (((writeable length 2 (connected ws full_ring) 0).actions ≡ [])
        × Sends
            (9 ∷ [])
            []
            (writeable length 2 (writeable length 2 (connected ws full_ring) 0).request 0))
writeable-Sends_example =
    writeable-Sends length 2 0 (omega arith) (omega arith) (omega arith) (connected ws full_ring)
      full-IsReady

abbrev client : WebSocketClient
client = record {
  callback = some 6;
  request = some 101;
  target = record { address = 97 ∷ []; path = root; port = 80 };
  origin = [];
}

abbrev ws_service : Service
ws_service = record service { infos = λ a. connected ws empty_ring }

stop-hears_nothing_example :
    ((stop client ws_service).client.request ≡ none)
    × ((r : RequestInfo) × (run length 2
            (event client_writeable ∷ event client_closed ∷ [])
            ((stop client ws_service).service.infos 101)
          ≡ some (r, []))
        × (r.wsi ≡ none)
        × (fate r ≡ releases))
stop-hears_nothing_example =
    stop-hears_nothing length 2 client ws_service (event client_writeable)
      (event client_closed ∷ []) refl refl

parse-short_host_example :
    (parse (ws_text ++ separator ++ (97 ∷ 98 ∷ 99 ∷ 58 ∷ 56 ∷ 48 ∷ []))
      ≡ some (record { address = 97 ∷ 98 ∷ 99 ∷ 58 ∷ 56 ∷ 48 ∷ []; path = root; port = 80 }))
    × (parse (wss_text ++ separator ++ (97 ∷ 98 ∷ 99 ∷ 58 ∷ 56 ∷ 48 ∷ []))
        ≡ some (record { address = 97 ∷ 98 ∷ 99 ∷ 58 ∷ 56 ∷ 48 ∷ []; path = root; port = 443 }))
parse-short_host_example = parse-short_host 3 (97 ∷ 98 ∷ 99 ∷ 58 ∷ 56 ∷ 48 ∷ []) refl refl refl
