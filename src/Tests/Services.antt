-- ===== src/Tests/Services.antt =====
-- The theorems on the service, its registry, the clients' destructors and the server's loop, at
-- concrete runs.
use slicksocket.Base.{ℕ, ◌≡◌, refl, true, false, none, some, List, [], ◌∷◌, inl, arith}
use slicksocket.Ring.{available}
use slicksocket.Ring.Threads as Threads
use slicksocket.Ring.Threads.Sound.{Reach-IsSound}
use slicksocket.Ring.Tests.{empty, empty-IsSound, last, reach}
use slicksocket.Request.{raw_adopt, raw_close}
use slicksocket.Service.{Service, next_request, take_request, serve_round, release_request, sweep}
use slicksocket.Service.Sweep.{sweep-eq, all_calls, kept, release_all}
use slicksocket.Service.Serving.{Round, serve, no_more, next, IsInOrder, serve-order}
use slicksocket.Service.Registry.{Call}
use slicksocket.Service.Registry.Lock.{
  Phase, outside, locked, found, answered, System, Reach, start, later, spins, locks, finds,
  answers, unlocks, update, test_and_set, at_start,
}
use slicksocket.Service.Registry.Lock.Exclusion.{Reach-same}
use slicksocket.Service.Completion.{text}
use slicksocket.Http.{wait_done}
use slicksocket.Http.Waiting.{wait_done-ends}
use slicksocket.Clients.{is_safe, destroy_websocket, destroy_socket, destroy_http, destroy-safe}
use slicksocket.WebSocket.Client.{WebSocketClient, root}
use slicksocket.RawSocket.{SocketClient}
use slicksocket.Server.Serving as Server
use slicksocket.Tests.{service, event}

-- Two threads have put the requests 7 and 8 into the queue.
abbrev first_round : Round
first_round = record {
  queue = last.ring;
  pool = service.request_pool;
  stops = false;
  connect = λ cci f. f;
  lws_service = λ f. f;
}

abbrev waiting_service : Service
waiting_service = record service { cursor = 0; requests = []; request_queue = empty.ring }

serve-order_example : IsInOrder 0 last.log 2 1 (serve (first_round ∷ []) waiting_service)
serve-order_example =
    serve-order waiting_service (Reach-IsSound empty-IsSound reach) (omega arith)
      (next Threads.start refl no_more) (omega arith, tt)

-- Thread 0 has asked for a path twice, with thread 1 waiting at first, and holds the lock.
abbrev first_call : Call
first_call = record { path = 1 ∷ []; made = 7; answer = 7 }

abbrev second_call : Call
second_call = record { path = 1 ∷ []; made = 9; answer = 7 }

abbrev phases : ℕ → Phase
phases =
    update (update (update (λ i. outside) 0 (locked 7 (1 ∷ []))) 0 (found 7 (1 ∷ []) none)) 0
      (answered 7)

abbrev asked_twice : System
asked_twice = record {
  flag = true;
  services = record { path = 1 ∷ []; service = 7 } ∷ [];
  phase =
      update
        (update (update (update phases 0 outside) 0 (locked 9 (1 ∷ []))) 0
          (found 9 (1 ∷ []) (some 7)))
        0 (answered 7);
  log = second_call ∷ first_call ∷ [];
}

asked_twice-Reach : Reach at_start asked_twice
unfolding test_and_set
asked_twice-Reach =
    later
      (later
        (later
          (later
            (later
              (later (later (later start (locks 0 7 (1 ∷ []) refl refl)) (spins 1 refl refl))
                (finds 0 7 (1 ∷ []) refl))
              (answers 0 7 (1 ∷ []) none refl))
            (unlocks 0 7 refl))
          (locks 0 9 (1 ∷ []) refl refl))
        (finds 0 9 (1 ∷ []) refl))
      (answers 0 9 (1 ∷ []) (some 7) refl)

Reach-same_example : second_call.answer ≡ first_call.answer
Reach-same_example = Reach-same 0 1 asked_twice-Reach refl refl refl

-- Request 100 is over.
wait_done-ends_example :
    wait_done (serve_round (λ cci f. f) (λ f. f) service).0 100
    ≡ some (
      text (take_request (λ cci f. f) service).0.infos 100,
      release_request (serve_round (λ cci f. f) (λ f. f) service).0 100,
    )
unfolding take_request next_request available
wait_done-ends_example = wait_done-ends (λ cci f. f) (λ f. f) service 100 (inl refl) refl refl

abbrev websocket : WebSocketClient
websocket = record {
  callback = some 6;
  request = some 100;
  target = record { address = 97 ∷ []; path = root; port = 80 };
  origin = [];
}

abbrev raw : SocketClient
raw = record { callback = some 6; request = some 101; address = 97 ∷ []; port = 80 }

destroy-safe_example :
    (is_safe [] (destroy_websocket websocket (record { service = 4; is_global = false })) ≡ false)
    × (is_safe [] (destroy_socket raw (record { service = 4; is_global = false })) ≡ true)
    × (is_safe [] (destroy_http (record { service = 4; is_global = false })) ≡ true)
destroy-safe_example = destroy-safe websocket raw (record { service = 4; is_global = false })

abbrev turns : List Server.Turn
turns =
    record { stopped = false; events = (5, event raw_adopt) ∷ []; fails = false }
    ∷ record { stopped = false; events = (5, event raw_close) ∷ []; fails = true }
    ∷ []

sweep-eq_example :
    ((sweep (100 ∷ 101 ∷ []) service).1 ≡ all_calls service.infos (100 ∷ 101 ∷ []))
    × ((sweep (100 ∷ 101 ∷ []) service).2 ≡ kept service.infos (100 ∷ 101 ∷ []))
    × ((sweep (100 ∷ 101 ∷ []) service).0.request_pool
        ≡ release_all service.infos (100 ∷ 101 ∷ []) service.request_pool)
sweep-eq_example = sweep-eq (100 ∷ 101 ∷ []) service
