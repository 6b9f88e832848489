-- ===== src/WebSocket/Stopping.antt =====
-- `websocket_client::stop`, and what becomes of the connection and of its request behind it.
use slicksocket.Base.{
  ℕ, ◌≡◌, refl, ap, ◌∙◌, true, false, none, some, List, [], ◌∷◌, ==_iff, if◌then◌else◌, arith,
}
use slicksocket.Request.{
  RequestType, http, ws, socket, is_http, is_ws, minus_one, RequestInfo, Event,
}
use slicksocket.Service.{Service, put, fate, releases}
use slicksocket.WebSocket.{ws_callback, closed}
use slicksocket.WebSocket.Connection.{run, follow, prepend}
use slicksocket.WebSocket.Client.{WebSocketClient, set_shutdown, stop}

put-same : (f : ℕ → RequestInfo) (a : ℕ) (r : RequestInfo) → put f a r a ≡ r
put-same f a r = ap (λ b. if b then r else f a) ((==_iff a a).1 refl)

stop-set_shutdown :
    (c : WebSocketClient) (s : Service) {a : ℕ}
    → c.request ≡ some a
    → (stop c s).service.infos a ≡ set_shutdown (s.infos a) true
unfolding stop
stop-set_shutdown c s {a} asked = rw asked (put-same s.infos a (set_shutdown (s.infos a) true))

-- A callback for a request that is shut down.
module _ (written : List ℕ → ℕ) (lws_pre : ℕ) where
  ws_callback-shutdown :
      (r : RequestInfo) (e : Event)
      → is_ws r.type ≡ true
      → r.socket_info.shutdown ≡ true
      → ws_callback written lws_pre r e
        ≡ some (record { request = closed r; answer = minus_one; actions = [] })
  unfolding ws_callback
  ws_callback-shutdown r e typed down = rw (typed, down)

  run-shutdown :
      (r : RequestInfo) (e : Event) (es : List Event)
      → is_ws r.type ≡ true
      → r.socket_info.shutdown ≡ true
      → run written lws_pre (e ∷ es) r ≡ some (closed r, [])
  run-shutdown r e [] typed down =
      ap (λ o. follow o (run written lws_pre [])) (ws_callback-shutdown r e typed down)
  run-shutdown r e (f ∷ es) typed down =
      ap (λ o. follow o (run written lws_pre (f ∷ es))) (ws_callback-shutdown r e typed down)
      ∙ ap (prepend []) (run-shutdown (closed r) f es typed down)

ws-other : (t : RequestType) → is_ws t ≡ true → is_http t ≡ false
ws-other http e = absurd (ground arith)
ws-other ws e = refl
ws-other socket e = refl

closed-releases :
    (r : RequestInfo)
    → is_ws r.type ≡ true
    → r.socket_info.shutdown ≡ true
    → fate (closed r) ≡ releases
unfolding fate
closed-releases r typed down = rw (ws-other r.type typed, down) refl

-- Once a `websocket_client` with a request has been stopped, whatever callbacks come for the old
-- connection, one at least: the client has no request, the user is told of none of them, `wsi` is
-- null behind them, and the loop of the service then gives the request back to the pool.
pub stop-hears_nothing :
    (written : List ℕ → ℕ) (lws_pre : ℕ) (c : WebSocketClient) (s : Service) {a : ℕ} (e : Event)
    (es : List Event)
    → c.request ≡ some a
    → is_ws (s.infos a).type ≡ true
    → ((stop c s).client.request ≡ none)
      × ((r : RequestInfo) × (run written lws_pre (e ∷ es) ((stop c s).service.infos a)
            ≡ some (r, []))
          × (r.wsi ≡ none)
          × (fate r ≡ releases))
unfolding stop
stop-hears_nothing written lws_pre c s {a} e es asked typed =
    let r = set_shutdown (s.infos a) true in
    (
      rw asked refl,
      (
        closed r,
        ap (run written lws_pre (e ∷ es)) (stop-set_shutdown c s asked)
            ∙ run-shutdown written lws_pre r e es typed refl,
        refl,
        closed-releases r typed refl,
      ),
    )
