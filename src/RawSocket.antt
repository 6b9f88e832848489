-- ===== src/RawSocket.antt =====
-- `socket_client` of src/socket_client.cpp: `connect`, `stop`, `send`, and the callback that the
-- service's thread runs.
pub mod Sending
pub mod Protocol
use mathlib.Core.Option
use slicksocket.Base.{
  ℕ, Bool, true, false, not, Option, none, some, List, [], ◌∷◌, ltb, ◌==◌, if◌then◌else◌,
}
use slicksocket.StringRing.{StringRing, Slice, read, reset, bytes_of}
use slicksocket.StringRing.Write.{Peer, write}
use slicksocket.WebSocket.{Sent, done, after, put_buffer, closed, told, established}
use slicksocket.Service.{Service, get_request_info}
use slicksocket.WebSocket.Client.{After, submit, shut_down}
use slicksocket.Request.{
  socket, ConnectInfo, no_info, Action, is_socket, RequestInfo, Event, Reason, dummy, minus_one,
  on_disconnected, on_error, on_data, lws_write, callback_on_writable, cancel_service, Reply,
  client_connection_error, raw_connected, raw_writeable, raw_rx, raw_close, wsi_destroy,
}

pub record SocketClient : Type 0 where
  pub callback : Option ℕ
  pub request : Option ℕ
  pub address : List ℕ
  pub port : ℕ

abbrev pub raw_socket_text : List ℕ
raw_socket_text = 114 ∷ 97 ∷ 119 ∷ 95 ∷ 115 ∷ 111 ∷ 99 ∷ 107 ∷ 101 ∷ 116 ∷ []

abbrev pub raw_text : List ℕ
raw_text = 82 ∷ 65 ∷ 87 ∷ []

abbrev pub raw_connect_info : SocketClient → ℕ → ConnectInfo
raw_connect_info c a = record no_info {
  port = c.port;
  address = some c.address;
  host = some c.address;
  origin = some c.address;
  protocol = raw_socket_text;
  method = raw_text;
  userdata = some a;
}

-- `socket_client::connect`; `heap` and `memory` are what `new` gives, `none` while it waits.
pub connect : SocketClient → Service → Option ℕ → List ℕ → Option (After SocketClient)
connect c s heap memory = elim c.request [
  | some a ↦ some (record { result = true; client = c; service = s; actions = [] })
  | none ↦ elim out.0 [
    | none ↦ some (record { result = false; client = c; service = out.1; actions = [] })
    | some a ↦
        Option.map
          (λ (t : Service × List Action). record {
            result = true;
            client = record c { request = some a };
            service = t.0;
            actions = t.1;
          })
          (submit out.1 a (raw_connect_info c a) c.callback)
  ]
]
  where
    out : Option ℕ × Service
    out = get_request_info s heap memory socket

-- `socket_client::stop`.
pub stop : SocketClient → Service → SocketClient × Service
stop c s = (record c { request = none }, shut_down s c.request)

-- `send` over a `wsi`.
pub send_bytes : Bool → RequestInfo → List ℕ → List Peer → Sent
send_bytes debug r msg peers = after (write debug r.socket_info.sending_buffer msg 0 peers) λ b s.
    if b
    then done true (some (put_buffer r s)) (callback_on_writable ∷ cancel_service ∷ [])
    else done false (some (put_buffer r s)) []

-- `send`, of a client whose `request_` is given.
pub send : Bool → Option RequestInfo → List ℕ → List Peer → Sent
unfolding send_bytes
send debug none msg peers = done false none []
send debug (some r) msg peers = elim r.wsi [
  | none ↦ done false (some r) []
  | some w ↦ send_bytes debug r msg peers
]

-- LWS_CALLBACK_RAW_WRITEABLE, with what `read` has given. `written` is what `lws_write` returns, as
-- a `size_t`.
pub pass_on : (List ℕ → ℕ) → RequestInfo → ℕ → Slice × StringRing → Reply RequestInfo
pass_on written r len (slice, s) =
    if slice.1 == 0
    then record { request = put_buffer r s; answer = dummy; actions = [] }
    else if ltb (written (bytes_of s slice)) len
    then record {
      request = closed (put_buffer r s);
      answer = minus_one;
      actions = lws_write (bytes_of s slice) ∷ [];
    }
    else record {
      request = put_buffer r s;
      answer = dummy;
      actions = lws_write (bytes_of s slice) ∷ callback_on_writable ∷ [];
    }

pub writeable : (List ℕ → ℕ) → RequestInfo → ℕ → Reply RequestInfo
unfolding pass_on
writeable written r len = pass_on written r len (read r.socket_info.sending_buffer)

-- The cases of `raw_socket_callback`; `none` when `reset` waits for a `write`.
pub on_reason : (List ℕ → ℕ) → RequestInfo → Event → Reason → Option (Reply RequestInfo)
unfolding writeable
on_reason written r ev raw_connected =
    Option.map (established r) (reset r.socket_info.sending_buffer)
on_reason written r ev client_connection_error = some (record {
  request = closed r;
  answer = minus_one;
  actions = on_error r.socket_info.callback ev.input ev.len ∷ [];
})
on_reason written r ev raw_writeable = some (writeable written r ev.len)
on_reason written r ev raw_rx = some (record {
  request = r;
  answer = dummy;
  actions = on_data r.socket_info.callback ev.input ev.len 0 ∷ [];
})
on_reason written r ev raw_close = some (record {
  request = told (closed r) true;
  answer = dummy;
  actions = on_disconnected r.socket_info.callback ∷ [];
})
on_reason written r ev wsi_destroy = some (record {
  request = told (closed r) true;
  answer = dummy;
  actions =
      if r.socket_info.disconnect_callback_invoked
      then []
      else on_disconnected r.socket_info.callback ∷ [];
})
on_reason written r ev _ = some (record { request = r; answer = dummy; actions = [] })

-- `raw_socket_callback`, for a `wsi` that has user data.
pub raw_socket_callback : (List ℕ → ℕ) → RequestInfo → Event → Option (Reply RequestInfo)
unfolding on_reason
raw_socket_callback written r ev =
    if not (is_socket r.type)
    then some (record { request = r; answer = dummy; actions = [] })
    else on_reason written r ev ev.reason
