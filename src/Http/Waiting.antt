-- ===== src/Http/Waiting.antt =====
-- The wait of the synchronous `http_client::request`, and the round of `socket_service::serve` that
-- ends it.
use slicksocket.Base.{ℕ, ◌≡◌, ap, true, none, some}
use slicksocket.Request.{ConnectInfo, is_http}
use slicksocket.Service.{Infos, Service, release_request, take_request, serve_round}
use slicksocket.Service.Completion.{IsIn, text, serve_round-done}
use slicksocket.Http.{wait_done}

-- A synchronous request that is in the service's set, and whose connection is gone when
-- `lws_service` returns, ends the wait of its thread in that round: the thread has the response that
-- libwebsockets left, and gives the request back.
pub wait_done-ends :
    (connect : ConnectInfo → Infos → Infos) (lws_service : Infos → Infos) (s : Service) (a : ℕ)
    → IsIn a (take_request connect s).0.requests
    → (lws_service (take_request connect s).0.infos a).wsi ≡ none
    → is_http (lws_service (take_request connect s).0.infos a).type ≡ true
    → let out = (serve_round connect lws_service s).0 in
      wait_done out a
      ≡ some (text (lws_service (take_request connect s).0.infos) a, release_request out a)
unfolding wait_done
wait_done-ends connect lws_service s a within gone typed =
    let (done, same) = serve_round-done connect lws_service s a within gone typed in
    rw done (ap (λ t. some (t, release_request (serve_round connect lws_service s).0 a)) same)
