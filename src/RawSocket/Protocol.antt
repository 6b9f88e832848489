-- ===== src/RawSocket/Protocol.antt =====
-- `raw_socket_callback` keeps the protocol of a client's callback.
use mathlib.Core.Option
use slicksocket.Base.{ℕ, ◌≡◌, refl, ap, ◌∙◌, ◌==◌, ltb, true, Option, some, List, [], ◌∷◌}
use slicksocket.StringRing.{StringRing, Slice, read, reset, bytes_of}
use slicksocket.Request.{
  is_socket, on_data, on_disconnected, Reason, dummy, RequestInfo, Event, Reply, wsi_destroy,
  client_connection_error, raw_connected, raw_rx, raw_writeable, raw_close,
}
use slicksocket.RawSocket.{raw_socket_callback, on_reason, writeable, pass_on}
use slicksocket.WebSocket.{told, closed, put_buffer, established}
use slicksocket.Callback.Protocol.{IsQuiet, IsQuiet-if, farewell, Protocol}

-- A request of a raw socket client.
pub record IsRaw (r : RequestInfo) : Type 0 where
  pub typed : is_socket r.type ≡ true

-- The reasons that `raw_socket_callback` leaves to libwebsockets.
abbrev pub IsOther : Reason → Type 0
IsOther client_connection_error = ⊥
IsOther raw_connected = ⊥
IsOther raw_writeable = ⊥
IsOther raw_rx = ⊥
IsOther raw_close = ⊥
IsOther wsi_destroy = ⊥
IsOther _ = Unit {0}

module _ (written : List ℕ → ℕ) where
  callback_is :
      (r : RequestInfo) (e : Event)
      → IsRaw r
      → raw_socket_callback written r e ≡ on_reason written r e e.reason
  unfolding raw_socket_callback
  callback_is r e v = rw v.typed

  by_reason :
      (r : RequestInfo) (e : Event) (reason : Reason) {out : Option (Reply RequestInfo)}
      → IsRaw r
      → e.reason ≡ reason
      → on_reason written r e reason ≡ out
      → raw_socket_callback written r e ≡ out
  by_reason r e reason v is gives = callback_is r e v ∙ ap (on_reason written r e) is ∙ gives

  pass_on-IsQuiet :
      (r : RequestInfo) (len : ℕ) (out : Slice × StringRing)
      → IsRaw r
      → IsQuiet IsRaw r (pass_on written r len out)
  unfolding pass_on
  pass_on-IsQuiet r len (slice, s) v =
      let kept : IsRaw (put_buffer r s) = record { typed = v.typed } in
      IsQuiet-if (slice.1 == 0)
        (record {
          served = kept;
          silent = record { same_object = refl; same_flag = refl; nothing_told = λ cb p a. refl };
        })
        (IsQuiet-if (ltb (written (bytes_of s slice)) len)
          (record {
            served = record { typed = v.typed };
            silent = record { same_object = refl; same_flag = refl; nothing_told = λ cb p a. refl };
          })
          (record {
            served = kept;
            silent = record { same_object = refl; same_flag = refl; nothing_told = λ cb p a. refl };
          }))

  pub opens_lem :
      (r : RequestInfo) (e : Event) (s : StringRing)
      → IsRaw r
      → reset r.socket_info.sending_buffer ≡ some s
      → e.reason ≡ raw_connected
      → (raw_socket_callback written r e ≡ some (established r s)) × IsRaw (established r s).request
  unfolding on_reason
  opens_lem r e s v free is = (
    by_reason r e raw_connected v is (ap (Option.map (established r)) free),
    record { typed = v.typed },
  )

  pub writes_lem :
      (r : RequestInfo) (e : Event)
      → IsRaw r
      → e.reason ≡ raw_writeable
      → (out : Reply RequestInfo) × (raw_socket_callback written r e ≡ some out)
        × IsQuiet IsRaw r out
  unfolding on_reason writeable
  writes_lem r e v is = (
    writeable written r e.len,
    by_reason r e raw_writeable v is refl,
    pass_on-IsQuiet r e.len (read r.socket_info.sending_buffer) v,
  )

  pub receives_lem :
      (r : RequestInfo) (e : Event)
      → IsRaw r
      → e.reason ≡ raw_rx
      → raw_socket_callback written r e
        ≡ some (record {
          request = r;
          answer = dummy;
          actions = on_data r.socket_info.callback e.input e.len 0 ∷ [];
        })
  unfolding on_reason
  receives_lem r e v is = by_reason r e raw_rx v is refl

  other_reason :
      (r : RequestInfo) (e : Event) (reason : Reason)
      → IsOther reason
      → on_reason written r e reason ≡ some (record { request = r; answer = dummy; actions = [] })
  unfolding on_reason
  other_reason r e client_connection_error other = absurd other
  other_reason r e raw_connected other = absurd other
  other_reason r e raw_writeable other = absurd other
  other_reason r e raw_rx other = absurd other
  other_reason r e raw_close other = absurd other
  other_reason r e wsi_destroy other = absurd other
  other_reason r e _ other = refl

  pub ignores_lem :
      (r : RequestInfo) (e : Event)
      → IsRaw r
      → IsOther e.reason
      → raw_socket_callback written r e
        ≡ some (record { request = r; answer = dummy; actions = [] })
  ignores_lem r e v other = by_reason r e e.reason v refl (other_reason r e e.reason other)

  pub closes_lem :
      (r : RequestInfo) (e : Event)
      → IsRaw r
      → e.reason ≡ raw_close
      → raw_socket_callback written r e
        ≡ some (record {
          request = told (closed r) true;
          answer = dummy;
          actions = on_disconnected r.socket_info.callback ∷ [];
        })
  unfolding on_reason
  closes_lem r e v is = by_reason r e raw_close v is refl

  pub destroys_lem :
      (r : RequestInfo) (e : Event)
      → IsRaw r
      → e.reason ≡ wsi_destroy
      → raw_socket_callback written r e
        ≡ some (record {
          request = told (closed r) true;
          answer = dummy;
          actions = farewell r.socket_info.disconnect_callback_invoked r.socket_info.callback;
        })
  unfolding on_reason
  destroys_lem r e v is = by_reason r e wsi_destroy v is refl

  abbrev pub raw_protocol : Protocol
  raw_protocol = record {
    callback = raw_socket_callback written;
    IsServed = IsRaw;
    opening = raw_connected;
    receiving = raw_rx;
    writing = raw_writeable;
    closing = raw_close;
    remaining = λ e. 0;
    IsOther = IsOther;
    opens = opens_lem;
    receives = receives_lem;
    writes = writes_lem;
    ignores = ignores_lem;
    closes = λ r e v is. (closes_lem r e v is, record { typed = v.typed });
    destroys = destroys_lem;
  }
