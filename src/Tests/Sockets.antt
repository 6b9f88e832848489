-- ===== src/Tests/Sockets.antt =====
-- The theorems on `socket_client` and `socket_server` at concrete requests and clients.
use slicksocket.Base.{◌≡◌, ◌⊎◌, refl, true, some, [], ◌∷◌, arith, length}
use slicksocket.Request.{socket, raw_adopt, raw_close, callback_on_writable}
use slicksocket.RawSocket
use slicksocket.RawSocket.Sending.{writeable-passes}
use slicksocket.Server
use slicksocket.Server.Sending.{Queues, send-Queues, reconnect-keeps_buffer}
use slicksocket.WebSocket.Sending.{Sends}
use slicksocket.Tests.{
  zeros16, empty_ring, full_ring, empty-IsReady, full-IsReady, connected, event,
}

writeable-passes_example :
    Sends (48 ∷ 0 ∷ 9 ∷ []) [] (RawSocket.writeable length (connected socket full_ring) 0)
    ⊎ (((RawSocket.writeable length (connected socket full_ring) 0).actions ≡ [])
        × Sends (48 ∷ 0 ∷ 9 ∷ []) [] (
            RawSocket.writeable length
              (RawSocket.writeable length (connected socket full_ring) 0).request
              0))
writeable-passes_example =
    writeable-passes length 0 (connected socket full_ring) (omega arith) (omega arith) full-IsReady

abbrev clients : Server.Clients
clients = (5, full_ring) ∷ (6, empty_ring) ∷ []

send-Queues_example :
    (clients' : Server.Clients) × (Server.send true clients 6 (7 ∷ []) []
      ≡ Server.done true clients' (callback_on_writable ∷ []))
    × Queues clients clients' 6 ((7 ∷ []) ∷ [])
send-Queues_example = send-Queues true clients 6 (7 ∷ []) [] refl empty-IsReady (record {
  is_short = record { some_bytes = omega arith; short = omega arith; counted = omega arith };
  is_free = omega arith;
  unfilled = omega arith;
})

reconnect-keeps_buffer_example :
    Server.find
      (Server.raw_socket_server_callback length zeros16
        (Server.raw_socket_server_callback length zeros16 clients 5 (event raw_close)).request
        5
        (event raw_adopt)).request
      5
    ≡ some full_ring
reconnect-keeps_buffer_example =
    reconnect-keeps_buffer length zeros16 clients 5 (event raw_close) (event raw_adopt) refl refl
      refl
