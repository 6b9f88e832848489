-- ===== src/WebSocket.antt =====
-- `websocket_client` of src/websocket_client.cpp: `send`, and the callback that the service's
-- thread runs.
pub mod Sending
pub mod Connection
pub mod Stopping
pub mod Protocol
pub mod Client
use mathlib.Core.Option
use slicksocket.Base.{
  ℕ, zero, suc, ◌+◌, Bool, true, false, not, ◌&&◌, Option, none, some, List, [], ◌∷◌, ltb, ◌==◌,
  if◌then◌else◌, length, read_at, sub64,
}
use slicksocket.StringRing.{StringRing, Slice, read, reset}
use slicksocket.StringRing.Write.{Outcome, returned, aborted, spinning, Peer, write}
use slicksocket.Request.{
  is_ws, RequestInfo, Event, Reason, Answer, dummy, minus_one, Action, on_connected,
  on_disconnected, on_error, on_data, lws_write, callback_on_writable, cancel_service, Reply,
  client_connection_error, client_established, client_writeable, client_receive, client_closed,
  wsi_destroy, event_wait_cancelled,
}

-- How a call of `send` ends.
pub data Sent : Type 0 where
  done : Bool → Option RequestInfo → List Action → Sent
  stopped : Sent
  waiting : Sent

abbrev pub after : Outcome → (Bool → StringRing → Sent) → Sent
after (returned b s) k = k b s
after aborted k = stopped
after spinning k = waiting

abbrev pub put_buffer : RequestInfo → StringRing → RequestInfo
put_buffer r s = record r { socket_info = record r.socket_info { sending_buffer = s } }

abbrev zeros : ℕ → List ℕ
zeros zero = []
zeros (suc n) = 0 ∷ zeros n

-- `header`: `LWS_PRE` characters, of which the first is '0'.
abbrev pub header : ℕ → List ℕ
header zero = []
header (suc n) = 48 ∷ zeros n

-- `send` over a `wsi`: the space for the header of libwebsockets, then the message.
pub send_parts : Bool → ℕ → RequestInfo → List ℕ → List Peer → List Peer → Sent
send_parts debug lws_pre r msg peers peers' =
    after (write debug r.socket_info.sending_buffer (header lws_pre) (length msg) peers) λ b s.
      if not b
      then done false (some (put_buffer r s)) []
      else after (write debug s msg 0 peers') λ b' s'.
        if b'
        then done true (some (put_buffer r s')) (callback_on_writable ∷ cancel_service ∷ [])
        else done false (some (put_buffer r s')) []

-- `send`, of a client whose `request_` is given; `lws_pre` is `LWS_PRE`.
pub send : Bool → ℕ → Option RequestInfo → List ℕ → List Peer → List Peer → Sent
unfolding send_parts
send debug lws_pre none msg peers peers' = done false none []
send debug lws_pre (some r) msg peers peers' = elim r.wsi [
  | none ↦ done false (some r) []
  | some w ↦ send_parts debug lws_pre r msg peers peers'
]

abbrev pub closed : RequestInfo → RequestInfo
closed r = record r { wsi = none }

abbrev pub told : RequestInfo → Bool → RequestInfo
told r b = record r { socket_info = record r.socket_info { disconnect_callback_invoked = b } }

-- LWS_CALLBACK_CLIENT_WRITEABLE, with what `read` has given. `written` is what `lws_write` returns,
-- as a `size_t`.
pub pass_on : (List ℕ → ℕ) → ℕ → RequestInfo → ℕ → Slice × StringRing → Reply RequestInfo
pass_on written lws_pre r len ((none, n), s) = record {
  request = put_buffer r s;
  answer = dummy;
  actions = [];
}
pass_on written lws_pre r len ((some at, n), s) =
    if n == 0
    then record { request = put_buffer r s; answer = dummy; actions = [] }
    else if ltb (written payload) len
    then record {
      request = closed (put_buffer r s);
      answer = minus_one;
      actions = lws_write payload ∷ [];
    }
    else record {
      request = put_buffer r s;
      answer = dummy;
      actions = lws_write payload ∷ callback_on_writable ∷ [];
    }
  where
    payload : List ℕ
    payload = read_at s.buffer (at + lws_pre) (sub64 n lws_pre)

pub writeable : (List ℕ → ℕ) → ℕ → RequestInfo → ℕ → Reply RequestInfo
unfolding pass_on
writeable written lws_pre r len = pass_on written lws_pre r len (read r.socket_info.sending_buffer)

-- LWS_CALLBACK_CLIENT_ESTABLISHED, after `reset`.
abbrev pub established : RequestInfo → StringRing → Reply RequestInfo
established r s = record {
  request = told (put_buffer r s) false;
  answer = dummy;
  actions = on_connected r.socket_info.callback ∷ [];
}

-- The cases of `ws_callback`; `none` when `reset` waits for a `write`.
pub on_reason : (List ℕ → ℕ) → ℕ → RequestInfo → Event → Reason → Option (Reply RequestInfo)
unfolding writeable
on_reason written lws_pre r ev client_connection_error = some (record {
  request = closed r;
  answer = dummy;
  actions = on_error r.socket_info.callback ev.input ev.len ∷ [];
})
on_reason written lws_pre r ev client_established =
    Option.map (established r) (reset r.socket_info.sending_buffer)
on_reason written lws_pre r ev client_writeable = some (writeable written lws_pre r ev.len)
on_reason written lws_pre r ev client_receive = some (record {
  request = r;
  answer = dummy;
  actions = on_data r.socket_info.callback ev.input ev.len ev.remaining ∷ [];
})
on_reason written lws_pre r ev client_closed = some (record {
  request = told (closed r) true;
  answer = dummy;
  actions = on_disconnected r.socket_info.callback ∷ [];
})
on_reason written lws_pre r ev wsi_destroy = some (record {
  request = told (closed r) true;
  answer = dummy;
  actions =
      if r.socket_info.disconnect_callback_invoked
      then []
      else on_disconnected r.socket_info.callback ∷ [];
})
on_reason written lws_pre r ev _ = some (record { request = r; answer = dummy; actions = [] })

abbrev pub is_destroy : Reason → Bool
is_destroy wsi_destroy = true
is_destroy _ = false

-- `ws_callback`, for a `wsi` that has user data.
pub ws_callback : (List ℕ → ℕ) → ℕ → RequestInfo → Event → Option (Reply RequestInfo)
unfolding on_reason
ws_callback written lws_pre r ev =
    if not (is_ws r.type)
    then some (record {
      request = if is_destroy ev.reason then closed r else r;
      answer = dummy;
      actions = [];
    })
    else if r.socket_info.shutdown
    then some (record { request = closed r; answer = minus_one; actions = [] })
    else on_reason written lws_pre r ev ev.reason
