-- ===== src/Server.antt =====
-- `socket_server` of src/socket_server.cpp: `send`, and the callback that the server's thread runs.
-- A client is its `wsi`; `clients` lists the clients with their buffers.
pub mod Sending
pub mod Serving
pub mod Protocol
use slicksocket.Base.{
  ℕ, Bool, true, false, Option, none, some, List, [], ◌∷◌, ltb, ◌==◌, if◌then◌else◌,
}
use slicksocket.StringRing.{StringRing, Slice, fresh, read, bytes_of}
use slicksocket.StringRing.Write.{Outcome, returned, aborted, spinning, Peer, write}
use slicksocket.Request.{
  Event, Reason, Answer, dummy, minus_one, one, Action, on_client_connected, on_client_disconnected,
  on_client_data, lws_write, callback_on_writable, Reply, raw_adopt, raw_close, raw_rx,
  raw_writeable,
}

abbrev pub Clients : Type 0
Clients = List (ℕ × StringRing)

abbrev pub find : Clients → ℕ → Option StringRing
find [] w = none
find ((v, s) ∷ l) w = if v == w then some s else find l w

-- A client's buffer is changed in its place.
abbrev pub replace : Clients → ℕ → StringRing → Clients
replace [] w s = []
replace ((v, t) ∷ l) w s = if v == w then (v, s) ∷ l else (v, t) ∷ replace l w s

-- How a call of `send` ends.
pub data Sent : Type 0 where
  done : Bool → Clients → List Action → Sent
  stopped : Sent
  waiting : Sent

-- After `write`, whatever it returns.
pub sent : Clients → ℕ → Outcome → Sent
sent clients w (returned b s) = done true (replace clients w s) (callback_on_writable ∷ [])
sent clients w aborted = stopped
sent clients w spinning = waiting

pub send : Bool → Clients → ℕ → List ℕ → List Peer → Sent
unfolding sent
send debug clients w msg peers = elim (find clients w) [
  | none ↦ done false clients []
  | some s ↦ sent clients w (write debug s msg 0 peers)
]

-- LWS_CALLBACK_RAW_WRITEABLE, with what `read` has given. `written` is what `lws_write` returns, as
-- a `size_t`.
pub pass_on : (List ℕ → ℕ) → Clients → ℕ → ℕ → Slice × StringRing → Reply Clients
pass_on written clients w len (slice, s) =
    if slice.1 == 0
    then record { request = replace clients w s; answer = dummy; actions = [] }
    else if ltb (written (bytes_of s slice)) len
    then record {
      request = replace clients w s;
      answer = minus_one;
      actions = lws_write (bytes_of s slice) ∷ [];
    }
    else record {
      request = replace clients w s;
      answer = one;
      actions = lws_write (bytes_of s slice) ∷ callback_on_writable ∷ [];
    }

abbrev pub write_out : (List ℕ → ℕ) → Clients → ℕ → ℕ → Option StringRing → Reply Clients
write_out written clients w len none = record { request = clients; answer = dummy; actions = [] }
write_out written clients w len (some s) = pass_on written clients w len (read s)

-- `clients.emplace(wsi, 8192)`, over the memory of the new buffer.
pub adopt : Clients → ℕ → List ℕ → Clients
adopt clients w memory = elim (find clients w) [
  | none ↦ (w, fresh memory 8192) ∷ clients
  | some s ↦ clients
]

-- The cases of `raw_socket_server_callback`.
pub on_reason : (List ℕ → ℕ) → List ℕ → Clients → ℕ → Event → Reason → Reply Clients
unfolding adopt
on_reason written memory clients w ev raw_adopt = record {
  request = adopt clients w memory;
  answer = dummy;
  actions = on_client_connected w ∷ [];
}
on_reason written memory clients w ev raw_close = record {
  request = clients;
  answer = dummy;
  actions = on_client_disconnected w ∷ [];
}
on_reason written memory clients w ev raw_rx = record {
  request = clients;
  answer = dummy;
  actions = on_client_data w ev.input ev.len ∷ [];
}
on_reason written memory clients w ev raw_writeable =
    write_out written clients w ev.len (find clients w)
on_reason written memory clients w ev _ = record { request = clients; answer = dummy; actions = [] }

pub raw_socket_server_callback : (List ℕ → ℕ) → List ℕ → Clients → ℕ → Event → Reply Clients
unfolding on_reason
raw_socket_server_callback written memory clients w ev =
    on_reason written memory clients w ev ev.reason
