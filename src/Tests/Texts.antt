-- ===== src/Tests/Texts.antt =====
-- The theorems on addresses, headers and whole HTTP answers at concrete texts.
use slicksocket.Base.{
  ℕ, ◌≡◌, ◌≢◌, refl, some, List, [], ◌∷◌, ◌++◌, arith, length, ◌||◌, Bool, true, false,
}
use slicksocket.Request.{
  wsi_destroy, HttpRequest, http, RequestInfo, Event, other, established_client_http, on_response,
  receive_client_http, receive_client_http_read, completed_client_http,
}
use slicksocket.Http
use slicksocket.Http.Address.{parse-http}
use slicksocket.Http.Callback.{http_callback}
use slicksocket.Http.Callback.Completion.{is_failure, is_last, http_callback-completes}
use slicksocket.Url.{no_port, slash, colon, int_of}
use slicksocket.Tests.{service, event, connected, empty_ring, lws}
use slicksocket.WebSocket.Client.{Target, parse, ws_text, wss_text}
use slicksocket.WebSocket.Client.Parsing.{IsHost, print, parse-url, parse-large_port}
use slicksocket.Http.{add_header, header_name}
use slicksocket.Http.Headers.{lookup, or_else, AllNamed, add_header-lookup}
use slicksocket.Http.Callback.Exchange.{
  run, no_more, reads, arrives, passes, completes, destroys, exchange-answers,
}
use slicksocket.Service.{Service, put, sweep}
use slicksocket.Service.Sweep.{all_calls, kept}

-- "a.bcd"
abbrev host : List ℕ
host = 97 ∷ 46 ∷ 98 ∷ 99 ∷ 100 ∷ []

host-IsHost : IsHost host
host-IsHost = record {
  flat = refl;
  plain = refl;
  not_three = λ e. absurd (omega arith);
  not_four = λ e. absurd (omega arith);
}

parse-url_example :
    (parse (print ws_text host 8080 (120 ∷ []))
      ≡ some (record { address = host; path = slash ∷ 120 ∷ []; port = 8080 }))
    × (parse (print wss_text host 8080 (120 ∷ []))
        ≡ some (record { address = host; path = slash ∷ 120 ∷ []; port = 8080 }))
parse-url_example = parse-url host 8080 (120 ∷ []) host-IsHost (omega arith)

parse-large_port_example :
    (t : Target) × (parse (print ws_text host 50000 []) ≡ some t) × (int_of t.port ≢ 50000)
parse-large_port_example = parse-large_port host 50000 [] host-IsHost (omega arith) (omega arith)

abbrev one_header : HttpRequest
one_header = record { body = []; content_type = []; headers = (97 ∷ colon ∷ [], 1 ∷ []) ∷ [] }

-- "b" is added, "a:" is there.
add_header-lookup_example :
    (lookup (header_name (98 ∷ [])) (add_header one_header (98 ∷ []) (2 ∷ [])).headers
      ≡ or_else (lookup (header_name (98 ∷ [])) one_header.headers) (2 ∷ []))
    × (lookup (97 ∷ colon ∷ []) (add_header one_header (98 ∷ []) (2 ∷ [])).headers
        ≡ lookup (97 ∷ colon ∷ []) one_header.headers)
    × AllNamed (add_header one_header (98 ∷ []) (2 ∷ [])).headers
add_header-lookup_example =
    add_header-lookup one_header 98 [] (2 ∷ []) (97 ∷ colon ∷ []) (refl, tt) refl

-- Request 101 of the service, before it has a connection that is over.
abbrev asking : Service
asking = record service { infos = λ a. connected http empty_ring }

abbrev piece : List ℕ → Event
piece text = record {
  reason = receive_client_http_read;
  input = some text;
  len = length text;
  remaining = 0;
}

exchange-answers_example :
    (r : RequestInfo) × (run lws
        (event established_client_http
            ∷ (event receive_client_http ∷ piece (3 ∷ []) ∷ event other ∷ piece (4 ∷ []) ∷ [])
          ++ event completed_client_http ∷ event wsi_destroy ∷ [])
        (asking.infos 101)
      ≡ some r)
    × (r.http_info.completed ≡ true)
    × (let infos = put asking.infos 101 r in
        let out = sweep ((100 ∷ []) ++ 101 ∷ []) (record asking { infos = infos }) in
        (out.1
          ≡ all_calls infos (100 ∷ [])
            ++ on_response 5 (record {
              status = 200;
              content_type = [];
              response_text = (1 ∷ 2 ∷ []) ++ (3 ∷ []) ++ (4 ∷ []) ++ [];
            })
              ∷ all_calls infos [])
        × (out.2 ≡ kept infos (100 ∷ []) ++ kept infos []))
exchange-answers_example =
    exchange-answers lws asking 101 (100 ∷ []) [] (event established_client_http)
      (event completed_client_http)
      (event receive_client_http ∷ piece (3 ∷ []) ∷ event other ∷ piece (4 ∷ []) ∷ [])
      (event wsi_destroy ∷ []) refl refl refl refl refl
      (reads (event receive_client_http) refl (
        arrives (piece (3 ∷ [])) (3 ∷ []) refl refl
          (passes (event other) tt (arrives (piece (4 ∷ [])) (4 ∷ []) refl refl no_more))))
      (completes, (destroys, tt))

-- "a.b:80"
parse-http_example :
    Http.parse (Http.http_text ++ (97 ∷ 46 ∷ 98 ∷ 58 ∷ 56 ∷ 48 ∷ []))
    ≡ some (record { address = 97 ∷ 46 ∷ 98 ∷ 58 ∷ 56 ∷ 48 ∷ []; port = no_port })
parse-http_example = parse-http (97 ∷ 46 ∷ 98 ∷ 58 ∷ 56 ∷ 48 ∷ []) refl

or_true : (b : Bool) → (b || true) ≡ true
or_true true = refl
or_true false = refl

http_callback-completes_example :
    (http_callback lws (connected http empty_ring) (event wsi_destroy)).request.http_info.completed
    ≡ true
http_callback-completes_example =
    http_callback-completes lws (connected http empty_ring) (event wsi_destroy) last
  where
    last :
        (is_failure (http_callback lws (connected http empty_ring) (event wsi_destroy)).answer
          || is_last wsi_destroy)
        ≡ true
    last =
        or_true
          (is_failure (http_callback lws (connected http empty_ring) (event wsi_destroy)).answer)
