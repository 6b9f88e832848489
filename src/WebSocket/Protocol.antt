-- ===== src/WebSocket/Protocol.antt =====
-- `ws_callback` keeps the protocol of a client's callback.
use mathlib.Core.Option
use slicksocket.Base.{
  ℕ, ◌+◌, ◌≡◌, refl, ap, ◌∙◌, ◌==◌, ltb, sub64, read_at, true, false, Option, none, some, List, [],
  ◌∷◌,
}
use slicksocket.StringRing.{StringRing, Slice, read, reset}
use slicksocket.Request.{
  is_ws, on_data, on_disconnected, Reason, dummy, RequestInfo, Event, Reply, wsi_destroy,
  client_connection_error, client_established, client_receive, client_writeable, client_closed,
}
use slicksocket.WebSocket.{
  ws_callback, on_reason, writeable, pass_on, told, closed, put_buffer, established,
}
use slicksocket.Callback.Protocol.{IsQuiet, IsQuiet-if, farewell, Protocol}

-- A request of a WebSocket client that is not stopped.
pub record IsRunning (r : RequestInfo) : Type 0 where
  pub typed : is_ws r.type ≡ true
  pub running : r.socket_info.shutdown ≡ false

-- The reasons that `ws_callback` leaves to libwebsockets.
abbrev pub IsOther : Reason → Type 0
IsOther client_connection_error = ⊥
IsOther client_established = ⊥
IsOther client_writeable = ⊥
IsOther client_receive = ⊥
IsOther client_closed = ⊥
IsOther wsi_destroy = ⊥
IsOther _ = Unit {0}

module _ (written : List ℕ → ℕ) (lws_pre : ℕ) where
  callback_is :
      (r : RequestInfo) (e : Event)
      → IsRunning r
      → ws_callback written lws_pre r e ≡ on_reason written lws_pre r e e.reason
  unfolding ws_callback
  callback_is r e v = rw (v.typed, v.running)

  by_reason :
      (r : RequestInfo) (e : Event) (reason : Reason) {out : Option (Reply RequestInfo)}
      → IsRunning r
      → e.reason ≡ reason
      → on_reason written lws_pre r e reason ≡ out
      → ws_callback written lws_pre r e ≡ out
  by_reason r e reason v is gives =
      callback_is r e v ∙ ap (on_reason written lws_pre r e) is ∙ gives

  pass_on-IsQuiet :
      (r : RequestInfo) (len : ℕ) (out : Slice × StringRing)
      → IsRunning r
      → IsQuiet IsRunning r (pass_on written lws_pre r len out)
  unfolding pass_on
  pass_on-IsQuiet r len ((none, n), s) v = record {
    served = record { typed = v.typed; running = v.running };
    silent = record { same_object = refl; same_flag = refl; nothing_told = λ cb p a. refl };
  }
  pass_on-IsQuiet r len ((some at, n), s) v =
      let kept : IsRunning (put_buffer r s) = record { typed = v.typed; running = v.running } in
      IsQuiet-if (n == 0)
        (record {
          served = kept;
          silent = record { same_object = refl; same_flag = refl; nothing_told = λ cb p a. refl };
        })
        (IsQuiet-if (ltb (written (read_at s.buffer (at + lws_pre) (sub64 n lws_pre))) len)
          (record {
            served = record { typed = v.typed; running = v.running };
            silent = record { same_object = refl; same_flag = refl; nothing_told = λ cb p a. refl };
          })
          (record {
            served = kept;
            silent = record { same_object = refl; same_flag = refl; nothing_told = λ cb p a. refl };
          }))

  pub opens_lem :
      (r : RequestInfo) (e : Event) (s : StringRing)
      → IsRunning r
      → reset r.socket_info.sending_buffer ≡ some s
      → e.reason ≡ client_established
      → (ws_callback written lws_pre r e ≡ some (established r s))
        × IsRunning (established r s).request
  unfolding on_reason
  opens_lem r e s v free is = (
    by_reason r e client_established v is (ap (Option.map (established r)) free),
    record { typed = v.typed; running = v.running },
  )

  pub writes_lem :
      (r : RequestInfo) (e : Event)
      → IsRunning r
      → e.reason ≡ client_writeable
      → (out : Reply RequestInfo) × (ws_callback written lws_pre r e ≡ some out)
        × IsQuiet IsRunning r out
  unfolding on_reason writeable
  writes_lem r e v is = (
    writeable written lws_pre r e.len,
    by_reason r e client_writeable v is refl,
    pass_on-IsQuiet r e.len (read r.socket_info.sending_buffer) v,
  )

  pub receives_lem :
      (r : RequestInfo) (e : Event)
      → IsRunning r
      → e.reason ≡ client_receive
      → ws_callback written lws_pre r e
        ≡ some (record {
          request = r;
          answer = dummy;
          actions = on_data r.socket_info.callback e.input e.len e.remaining ∷ [];
        })
  unfolding on_reason
  receives_lem r e v is = by_reason r e client_receive v is refl

  other_reason :
      (r : RequestInfo) (e : Event) (reason : Reason)
      → IsOther reason
      → on_reason written lws_pre r e reason
        ≡ some (record { request = r; answer = dummy; actions = [] })
  unfolding on_reason
  other_reason r e client_connection_error other = absurd other
  other_reason r e client_established other = absurd other
  other_reason r e client_writeable other = absurd other
  other_reason r e client_receive other = absurd other
  other_reason r e client_closed other = absurd other
  other_reason r e wsi_destroy other = absurd other
  other_reason r e _ other = refl

  pub ignores_lem :
      (r : RequestInfo) (e : Event)
      → IsRunning r
      → IsOther e.reason
      → ws_callback written lws_pre r e
        ≡ some (record { request = r; answer = dummy; actions = [] })
  ignores_lem r e v other = by_reason r e e.reason v refl (other_reason r e e.reason other)

  pub closes_lem :
      (r : RequestInfo) (e : Event)
      → IsRunning r
      → e.reason ≡ client_closed
      → ws_callback written lws_pre r e
        ≡ some (record {
          request = told (closed r) true;
          answer = dummy;
          actions = on_disconnected r.socket_info.callback ∷ [];
        })
  unfolding on_reason
  closes_lem r e v is = by_reason r e client_closed v is refl

  pub destroys_lem :
      (r : RequestInfo) (e : Event)
      → IsRunning r
      → e.reason ≡ wsi_destroy
      → ws_callback written lws_pre r e
        ≡ some (record {
          request = told (closed r) true;
          answer = dummy;
          actions = farewell r.socket_info.disconnect_callback_invoked r.socket_info.callback;
        })
  unfolding on_reason
  destroys_lem r e v is = by_reason r e wsi_destroy v is refl

  abbrev pub ws_protocol : Protocol
  ws_protocol = record {
    callback = ws_callback written lws_pre;
    IsServed = IsRunning;
    opening = client_established;
    receiving = client_receive;
    writing = client_writeable;
    closing = client_closed;
    remaining = λ e. e.remaining;
    IsOther = IsOther;
    opens = opens_lem;
    receives = receives_lem;
    writes = writes_lem;
    ignores = ignores_lem;
    closes = λ r e v is. (closes_lem r e v is, record { typed = v.typed; running = v.running });
    destroys = destroys_lem;
  }
