-- ===== src/Callback/Connection.antt =====
-- What a connection does to the user's object, for every client that keeps the protocol.
use slicksocket.Base.{
  ℕ, ◌≡◌, refl, ap, ◌∙◌, Bool, true, false, Option, some, List, [], ◌∷◌, ◌++◌, arith,
}
use slicksocket.StringRing.{StringRing, reset}
use slicksocket.Request.{
  RequestInfo, Event, Reply, dummy, wsi_destroy, on_connected, on_disconnected, on_data,
}
use slicksocket.WebSocket.{told, closed, established}
use slicksocket.WebSocket.Connection.{prepend, follow}
use slicksocket.Callback.{ClientCallback}
use slicksocket.Callback.Replay.{is_at, replay, replay-append}
use slicksocket.Callback.Protocol.{
  farewell, Protocol, run_with, Piece, Open, nothing_more, received, wrote, other, Ended, destroyed,
  closed_first, hear, Leaves,
}

module _ (c : Protocol) {A : Type 0} (cb : ClientCallback A) (p : ℕ) where
  -- A request that is connected, of the user's object at p.
  record IsOpen (r : RequestInfo) : Type 0 where
    served : c.IsServed r
    whose : r.socket_info.callback ≡ some p
    untold : r.socket_info.disconnect_callback_invoked ≡ false

  called : (to : Option ℕ) → to ≡ some p → is_at p to ≡ true
  called to e = rw e (ground arith)

  step-Leaves :
      (r : RequestInfo) (e : Event) (es : List Event) (a b : A) (out : Reply RequestInfo)
      → c.callback r e ≡ some out
      → Leaves cb p (replay cb p out.actions a) b (run_with c.callback es out.request)
      → Leaves cb p a b (run_with c.callback (e ∷ es) r)
  step-Leaves r e es a b out first rest = record {
    request = rest.request;
    acts = out.actions ++ rest.acts;
    gives = ap (λ o. follow o (run_with c.callback es)) first ∙ ap (prepend out.actions) rest.gives;
    gone = rest.gone;
    user = replay-append cb p out.actions rest.acts a ∙ rest.user;
  }

  -- The reply to LWS_CALLBACK_WSI_DESTROY, whether the user was told before.
  abbrev gone_reply : RequestInfo → Bool → Reply RequestInfo
  gone_reply r b = record {
    request = told (closed r) true;
    answer = dummy;
    actions = farewell b r.socket_info.callback;
  }

  gone-Leaves :
      (r : RequestInfo) (e : Event) (a b : A) (was_told : Bool)
      → c.IsServed r
      → e.reason ≡ wsi_destroy
      → r.socket_info.disconnect_callback_invoked ≡ was_told
      → replay cb p (farewell was_told r.socket_info.callback) a ≡ b
      → Leaves cb p a b (run_with c.callback (e ∷ []) r)
  gone-Leaves r e a b was_told served is flag ends =
      step-Leaves r e [] a b (gone_reply r was_told)
        (c.destroys r e served is ∙ ap (λ f. some (gone_reply r f)) flag)
        (record {
          request = told (closed r) true;
          acts = [];
          gives = refl;
          gone = refl;
          user = ends;
        })

  told_gone :
      (r : RequestInfo) (a : A)
      → IsOpen r
      → replay cb p (on_disconnected r.socket_info.callback ∷ []) a ≡ cb.on_disconnected a
  told_gone r a o = rw (called r.socket_info.callback o.whose) refl

  Ended-Leaves :
      (r : RequestInfo) (a : A) {es : List Event}
      → Ended c es
      → IsOpen r
      → Leaves cb p a (cb.on_disconnected a) (run_with c.callback es r)
  Ended-Leaves r a (destroyed e is) o =
      gone-Leaves r e a (cb.on_disconnected a) false o.served is o.untold (told_gone r a o)
  Ended-Leaves r a (closed_first e f was is) o =
      let (first, served) = c.closes r e o.served was in
      step-Leaves r e (f ∷ []) a (cb.on_disconnected a) (gone_reply r false) first (
        gone-Leaves (told (closed r) true) f
          (replay cb p (on_disconnected r.socket_info.callback ∷ []) a) (cb.on_disconnected a) true
          served is refl (told_gone r a o))

  Open-Leaves :
      (r : RequestInfo) (a : A) {es end : List Event} {ps : List Piece}
      → Open c es ps
      → Ended c end
      → IsOpen r
      → Leaves cb p a (cb.on_disconnected (hear cb ps a)) (run_with c.callback (es ++ end) r)
  Open-Leaves r a nothing_more ending o = Ended-Leaves r a ending o
  Open-Leaves r a {end = end} (received e {es} {ps} is more) ending o =
      let heard : replay cb p (on_data r.socket_info.callback e.input e.len (c.remaining e) ∷ []) a
          ≡ cb.on_data e.input e.len (c.remaining e) a =
        rw (called r.socket_info.callback o.whose) refl in
      step-Leaves r e (es ++ end) a
        (cb.on_disconnected (hear cb ps (cb.on_data e.input e.len (c.remaining e) a)))
        (record {
          request = r;
          answer = dummy;
          actions = on_data r.socket_info.callback e.input e.len (c.remaining e) ∷ [];
        })
        (c.receives r e o.served is)
        (rw heard (Open-Leaves r (cb.on_data e.input e.len (c.remaining e) a) more ending o))
  Open-Leaves r a {end = end} (other e {es} {ps} is more) ending o =
      step-Leaves r e (es ++ end) a (cb.on_disconnected (hear cb ps a))
        (record { request = r; answer = dummy; actions = [] }) (c.ignores r e o.served is)
        (Open-Leaves r a more ending o)
  Open-Leaves r a {end = end} (wrote e {es} {ps} is more) ending o =
      let (out, first, quiet) = c.writes r e o.served is in
      step-Leaves r e (es ++ end) a (cb.on_disconnected (hear cb ps a)) out first (
        rw (quiet.silent.nothing_told cb p a) (
          Open-Leaves out.request a more ending (record {
            served = quiet.served;
            whose = quiet.silent.same_object ∙ o.whose;
            untold = quiet.silent.same_flag ∙ o.untold;
          })))

-- For a client whose callback keeps the protocol, and any object of its user: over a whole connection,
-- in which data come in pieces and the client may write, the object's `on_connected` is called, then
-- `on_data` for each piece in order, then `on_disconnected`, and no more; `wsi` is null at the end.
pub connection-Leaves :
    (c : Protocol) {A : Type 0} (cb : ClientCallback A) (p : ℕ) (a : A) {s : StringRing}
    (r : RequestInfo) (opening : Event) {es end : List Event} {ps : List Piece}
    → c.IsServed r
    → r.socket_info.callback ≡ some p
    → reset r.socket_info.sending_buffer ≡ some s
    → opening.reason ≡ c.opening
    → Open c es ps
    → Ended c end
    → Leaves cb p a
        (cb.on_disconnected (hear cb ps (cb.on_connected a)))
        (run_with c.callback (opening ∷ es ++ end) r)
connection-Leaves c cb p a {s} r opening {es} {end} {ps} served whose free is running ending =
    let (first, still) = c.opens r opening s served free is in
    let heard : replay cb p (on_connected r.socket_info.callback ∷ []) a ≡ cb.on_connected a =
      rw (called c cb p r.socket_info.callback whose) refl in
    step-Leaves c cb p r opening (es ++ end) a (cb.on_disconnected (hear cb ps (cb.on_connected a)))
      (established r s) first
      (rw heard (
        Open-Leaves c cb p (established r s).request (cb.on_connected a) running ending
          (record { served = still; whose = whose; untold = refl })))
