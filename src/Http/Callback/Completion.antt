-- ===== src/Http/Callback/Completion.antt =====
-- When `http_callback` ends the wait of a synchronous request.
use slicksocket.Base.{
  arith, ◌≡◌, refl, inl, inr, Bool-cases, ◌+◌, Bool, true, false, not, ◌||◌, Option, none, some,
  List, [], ◌∷◌, ◌++◌, ltb, ◌==◌, if◌then◌else◌, length,
}
use slicksocket.Request.{
  RequestInfo, HttpRequest, Event, Reason, Answer, dummy, minus_one, zero, one, aborts, Action,
  Reply, add_http_header, body_pending, callback_on_writable, lws_write, client_connection_error,
  client_append_handshake_header, client_http_writeable, established_client_http,
  receive_client_http, completed_client_http, closed_client_http, wsi_destroy,
}
use slicksocket.Http.Callback.{
  fits_content_type, Header, exceeds_text, write_text, Lws, no_text, user_agent, fail, reply,
  all_headers, add_all, append_headers, write_body, on_reason, http_callback,
}

-- The callback gives the connection up.
abbrev pub is_failure : Answer → Bool
is_failure minus_one = true
is_failure dummy = false
is_failure zero = false
is_failure one = false
is_failure aborts = false

-- Reasons after which libwebsockets has no more for a request.
abbrev pub is_last : Reason → Bool
is_last client_connection_error = true
is_last completed_client_http = true
is_last closed_client_http = true
is_last wsi_destroy = true
is_last _ = false

-- It completes the request, if it gives the connection up.
abbrev Completes : Reply RequestInfo → Type 0
Completes out = (not (is_failure out.answer) || out.request.http_info.completed) ≡ true

Completes-if :
    (b : Bool) (x y : Reply RequestInfo)
    → Completes x
    → Completes y
    → Completes (if b then x else y)
Completes-if true x y p q = p
Completes-if false x y p q = q

add_all-Completes :
    (lws : Lws) (r : RequestInfo) (done hs : List Header) (last : List Action)
    → Completes (add_all lws r done hs last)
unfolding add_all fail
add_all-Completes lws r done [] last = refl
add_all-Completes lws r done (h ∷ hs) last =
    let rest = add_all lws r (done ++ h ∷ []) hs last in
    Completes-if (lws.header_fails done h) (fail r h.failure [])
      (record rest { actions = add_http_header h.name h.value ∷ rest.actions }) refl
      (add_all-Completes lws r (done ++ h ∷ []) hs last)

headers-Completes :
    (lws : Lws) (r : RequestInfo) (q : Option HttpRequest) → Completes (append_headers lws r q)
unfolding append_headers
headers-Completes lws r none = add_all-Completes lws r [] (user_agent ∷ []) []
headers-Completes lws r (some q) =
    add_all-Completes lws r [] (user_agent ∷ all_headers q)
      (if no_text q.body then [] else body_pending true ∷ callback_on_writable ∷ [])

body-Completes :
    (lws : Lws) (r : RequestInfo) (q : Option HttpRequest) → Completes (write_body lws r q)
unfolding write_body fail
body-Completes lws r none = refl
body-Completes lws r (some q) =
    let acts = body_pending false ∷ lws_write q.body ∷ [] in
    Completes-if (ltb 8192 (length q.body + 1)) (fail r exceeds_text [])
      (if not (lws.written q.body == length q.body) then fail r write_text acts else reply r acts)
      refl
      (Completes-if (not (lws.written q.body == length q.body)) (fail r write_text acts)
        (reply r acts) refl refl)

-- The same, or there was the last callback of the request.
abbrev Finishes : Reason → Reply RequestInfo → Type 0
Finishes reason out =
    (not (is_failure out.answer || is_last reason) || out.request.http_info.completed) ≡ true

Finishes-Completes :
    (reason : Reason) (out : Reply RequestInfo)
    → is_last reason ≡ false
    → Completes out
    → Finishes reason out
Finishes-Completes reason out early c = elim (Bool-cases (is_failure out.answer)) [
  | inl e ↦ ground (arith, e, early, c)
  | inr e ↦ ground (arith, e, early, c)
]

reason-Finishes :
    (lws : Lws) (r : RequestInfo) (ev : Event) (reason : Reason)
    → Finishes reason (on_reason lws r ev reason)
unfolding on_reason
reason-Finishes lws r ev client_append_handshake_header =
    Finishes-Completes client_append_handshake_header (append_headers lws r r.http_info.request)
      refl (headers-Completes lws r r.http_info.request)
reason-Finishes lws r ev client_http_writeable =
    Finishes-Completes client_http_writeable (write_body lws r r.http_info.request) refl
      (body-Completes lws r r.http_info.request)
reason-Finishes lws r ev receive_client_http = elim (Bool-cases lws.read_fails) [
  | inl e ↦ rw e refl
  | inr e ↦ rw e refl
]
reason-Finishes lws r ev established_client_http = elim (Bool-cases (fits_content_type lws)) [
  | inl e ↦ rw e refl
  | inr e ↦ rw e refl
]
reason-Finishes lws r ev _ = refl

implied : (a b : Bool) → (not a || b) ≡ true → a ≡ true → b ≡ true
implied true b e h = e
implied false b e h = ground (arith, h)

-- In each case of `http_callback`: when it returns -1, and when the reason is a connection error or
-- the end of the request, the request is completed, so that the thread that waits for it goes on.
pub http_callback-completes :
    (lws : Lws) (r : RequestInfo) (ev : Event)
    → (is_failure (http_callback lws r ev).answer || is_last ev.reason) ≡ true
    → (http_callback lws r ev).request.http_info.completed ≡ true
unfolding http_callback
http_callback-completes lws r ev h =
    let out = on_reason lws r ev ev.reason in
    implied (is_failure out.answer || is_last ev.reason) out.request.http_info.completed
      (reason-Finishes lws r ev ev.reason) h
