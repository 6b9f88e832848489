-- ===== src/WebSocket/Connection.antt =====
-- What the user of a `websocket_client` hears of a connection, over the callbacks that
-- libwebsockets makes for it.
use mathlib.Core.Option
use slicksocket.Base.{
  ltb, sub64, read_at, if◌then◌else◌, ℕ, ◌+◌, ◌≡◌, refl, ap, ◌∙◌, ◌==◌, Bool, true, false, Option,
  none, some, List, [], ◌∷◌, ◌++◌,
}
use slicksocket.StringRing.{StringRing, Slice, read, reset}
use slicksocket.Request.{
  dummy, on_data, is_ws, RequestInfo, Event, Reason, Action, Reply, client_connection_error,
  client_established, client_writeable, client_receive, client_closed, wsi_destroy, on_connected,
  on_disconnected,
}
use slicksocket.WebSocket.{
  ws_callback, on_reason, writeable, pass_on, told, established, put_buffer, closed,
}

abbrev pub prepend :
    List Action → Option (RequestInfo × List Action) → Option (RequestInfo × List Action)
prepend acts none = none
prepend acts (some (r, more)) = some (r, acts ++ more)

abbrev pub follow :
    Option (Reply RequestInfo)
    → (RequestInfo → Option (RequestInfo × List Action))
    → Option (RequestInfo × List Action)
follow none k = none
follow (some out) k = prepend out.actions (k out.request)

-- The callbacks of one connection in their order: the request at the end and all that was done.
abbrev pub run : (List ℕ → ℕ) → ℕ → List Event → RequestInfo → Option (RequestInfo × List Action)
run written lws_pre [] r = some (r, [])
run written lws_pre (e ∷ es) r = follow (ws_callback written lws_pre r e) (run written lws_pre es)

abbrev pub connects : List Action → ℕ
connects [] = 0
connects (on_connected c ∷ acts) = 1 + connects acts
connects (_ ∷ acts) = connects acts

abbrev pub disconnects : List Action → ℕ
disconnects [] = 0
disconnects (on_disconnected c ∷ acts) = 1 + disconnects acts
disconnects (_ ∷ acts) = disconnects acts

-- Reasons that neither open nor close a connection.
abbrev pub IsQuiet : Reason → Type 0
IsQuiet client_established = ⊥
IsQuiet client_connection_error = ⊥
IsQuiet client_closed = ⊥
IsQuiet wsi_destroy = ⊥
IsQuiet _ = Unit {0}

abbrev pub AllQuiet : List Event → Type 0
AllQuiet [] = Unit {0}
AllQuiet (e ∷ es) = IsQuiet e.reason × AllQuiet es

-- How libwebsockets ends a connection: it is closed and then destroyed, or destroyed at once.
pub data Ending : List Event → Type 0 where
  destroys : (e : Event) → e.reason ≡ wsi_destroy → Ending (e ∷ [])
  closes : (c e : Event) → c.reason ≡ client_closed → e.reason ≡ wsi_destroy → Ending (c ∷ e ∷ [])

-- A client that is not stopped, with `disconnecte_callback_invoked` at b.
pub record Listens (b : Bool) (r : RequestInfo) : Type 0 where
  pub typed : is_ws r.type ≡ true
  pub running : r.socket_info.shutdown ≡ false
  pub flag : r.socket_info.disconnect_callback_invoked ≡ b

module _ (written : List ℕ → ℕ) (lws_pre : ℕ) where
  callback-eq :
      (r : RequestInfo) (e : Event) {b : Bool}
      → Listens b r
      → ws_callback written lws_pre r e ≡ on_reason written lws_pre r e e.reason
  unfolding ws_callback
  callback-eq r e l = rw (l.typed, l.running)

  -- A reply of which the user does not hear that the connection is made or lost.
  record Silent (b : Bool) (out : Reply RequestInfo) : Type 0 where
    listens : Listens b out.request
    no_connect : (acts : List Action) → connects (out.actions ++ acts) ≡ connects acts
    no_disconnect : (acts : List Action) → disconnects (out.actions ++ acts) ≡ disconnects acts

  Silent-if :
      {b : Bool} (c : Bool) {x y : Reply RequestInfo}
      → Silent b x
      → Silent b y
      → Silent b (if c then x else y)
  Silent-if true s t = s
  Silent-if false s t = t

  pass_on-Silent :
      {b : Bool} (r : RequestInfo) (len : ℕ) (out : Slice × StringRing)
      → Listens b r
      → Silent b (pass_on written lws_pre r len out)
  unfolding pass_on
  pass_on-Silent r len ((none, n), s) l = record {
    listens = record { typed = l.typed; running = l.running; flag = l.flag };
    no_connect = λ acts. refl;
    no_disconnect = λ acts. refl;
  }
  pass_on-Silent r len ((some at, n), s) l =
      let kept : Listens _ (put_buffer r s) = record {
        typed = l.typed;
        running = l.running;
        flag = l.flag;
      } in
      Silent-if (n == 0)
        (record { listens = kept; no_connect = λ acts. refl; no_disconnect = λ acts. refl })
        (Silent-if (ltb (written (read_at s.buffer (at + lws_pre) (sub64 n lws_pre))) len)
          (record {
            listens = record { typed = l.typed; running = l.running; flag = l.flag };
            no_connect = λ acts. refl;
            no_disconnect = λ acts. refl;
          })
          (record { listens = kept; no_connect = λ acts. refl; no_disconnect = λ acts. refl }))

  quiet-Silent :
      {b : Bool} (r : RequestInfo) (e : Event) (reason : Reason)
      → IsQuiet reason
      → Listens b r
      → (out : Reply RequestInfo) × (on_reason written lws_pre r e reason ≡ some out) × Silent b out
  unfolding on_reason writeable
  quiet-Silent r e client_writeable q l = (
    writeable written lws_pre r e.len,
    refl,
    pass_on-Silent r e.len (read r.socket_info.sending_buffer) l,
  )
  quiet-Silent r e client_receive q l = (
    record {
      request = r;
      answer = dummy;
      actions = on_data r.socket_info.callback e.input e.len e.remaining ∷ [];
    },
    refl,
    record { listens = l; no_connect = λ acts. refl; no_disconnect = λ acts. refl },
  )
  quiet-Silent r e client_established q l = absurd q
  quiet-Silent r e client_connection_error q l = absurd q
  quiet-Silent r e client_closed q l = absurd q
  quiet-Silent r e wsi_destroy q l = absurd q
  quiet-Silent r e _ q l = (
    record { request = r; answer = dummy; actions = [] },
    refl,
    record { listens = l; no_connect = λ acts. refl; no_disconnect = λ acts. refl },
  )

  -- How the callbacks of a connection that is open end.
  record Ends (o : Option (RequestInfo × List Action)) : Type 0 where
    pub request : RequestInfo
    pub acts : List Action
    pub gives : o ≡ some (request, acts)
    pub gone : request.wsi ≡ none
    pub no_connect : connects acts ≡ 0
    pub one_disconnect : disconnects acts ≡ 1

  run-step :
      (r : RequestInfo) (e : Event) (es : List Event) {b : Bool} {out : Reply RequestInfo}
      {r' : RequestInfo} {acts : List Action}
      → Listens b r
      → on_reason written lws_pre r e e.reason ≡ some out
      → run written lws_pre es out.request ≡ some (r', acts)
      → run written lws_pre (e ∷ es) r ≡ some (r', out.actions ++ acts)
  run-step r e es {out = out} l first rest =
      ap (λ o. follow o (run written lws_pre es)) (callback-eq r e l ∙ first)
      ∙ ap (prepend out.actions) rest

  -- LWS_CALLBACK_WSI_DESTROY tells the user, unless that was done before.
  destroyed : Bool → RequestInfo → Reply RequestInfo
  destroyed b r = record {
    request = told (closed r) true;
    answer = dummy;
    actions = if b then [] else on_disconnected r.socket_info.callback ∷ [];
  }

  destroy-eq :
      (r : RequestInfo) (e : Event) {b : Bool}
      → Listens b r
      → e.reason ≡ wsi_destroy
      → run written lws_pre (e ∷ []) r ≡ some (told (closed r) true, (destroyed b r).actions ++ [])
  unfolding on_reason destroyed
  destroy-eq r e {b} l is =
      run-step r e [] l
        (ap (on_reason written lws_pre r e) is ∙ ap (λ f. some (destroyed f r)) l.flag) refl

  Ending-Ends :
      (r : RequestInfo) {es : List Event}
      → Ending es
      → Listens false r
      → Ends (run written lws_pre es r)
  unfolding destroyed on_reason
  Ending-Ends r (destroys e is) l = record {
    request = told (closed r) true;
    acts = on_disconnected r.socket_info.callback ∷ [];
    gives = destroy-eq r e l is;
    gone = refl;
    no_connect = refl;
    one_disconnect = refl;
  }
  Ending-Ends r (closes c e was is) l = record {
    request = told (closed r) true;
    acts = on_disconnected r.socket_info.callback ∷ [];
    gives = run-step r c (e ∷ []) l (ap (on_reason written lws_pre r c) was) (
        destroy-eq (told (closed r) true) e
          (record { typed = l.typed; running = l.running; flag = refl }) is);
    gone = refl;
    no_connect = refl;
    one_disconnect = refl;
  }

  quiet-Ends :
      (r : RequestInfo) (es : List Event) {end : List Event}
      → AllQuiet es
      → Ending end
      → Listens false r
      → Ends (run written lws_pre (es ++ end) r)
  quiet-Ends r [] q ending l = Ending-Ends r ending l
  quiet-Ends r (e ∷ es) {end} (q, qs) ending l =
      let (out, first, s) = quiet-Silent r e e.reason q l in
      let rest = quiet-Ends out.request es qs ending s.listens in
      record {
        request = rest.request;
        acts = out.actions ++ rest.acts;
        gives = run-step r e (es ++ end) l first rest.gives;
        gone = rest.gone;
        no_connect = s.no_connect rest.acts ∙ rest.no_connect;
        one_disconnect = s.no_disconnect rest.acts ∙ rest.one_disconnect;
      }

-- What the user hears of a whole connection.
pub record HeardOnce (o : Option (RequestInfo × List Action)) : Type 0 where
  pub request : RequestInfo
  pub acts : List Action
  pub gives : o ≡ some (request, acts)
  pub gone : request.wsi ≡ none
  pub one_connect : connects acts ≡ 1
  pub one_disconnect : disconnects acts ≡ 1

-- Of a WebSocket client that is not stopped and does not write when the connection is established:
-- whatever was before, when callbacks come that establish the connection, then any that neither open
-- nor close one, and at last those that close and destroy it or destroy it at once, the user hears
-- `on_connected` once and `on_disconnected` once, and `wsi` is null at the end.
pub connection-HeardOnce :
    (written : List ℕ → ℕ) (lws_pre : ℕ) {b : Bool} {s : StringRing} (r : RequestInfo)
    (opening : Event) (es : List Event) {end : List Event}
    → Listens b r
    → reset r.socket_info.sending_buffer ≡ some s
    → opening.reason ≡ client_established
    → AllQuiet es
    → Ending end
    → HeardOnce (run written lws_pre (opening ∷ es ++ end) r)
unfolding on_reason
connection-HeardOnce written lws_pre {s = s} r opening es {end} l free opens q ending =
    let start : Listens false (told (put_buffer r s) false) = record {
      typed = l.typed;
      running = l.running;
      flag = refl;
    } in
    let rest = quiet-Ends written lws_pre (told (put_buffer r s) false) es q ending start in
    record {
      request = rest.request;
      acts = on_connected r.socket_info.callback ∷ rest.acts;
      gives =
          run-step written lws_pre r opening (es ++ end) l
            (ap (on_reason written lws_pre r opening) opens ∙ ap (Option.map (established r)) free)
            rest.gives;
      gone = rest.gone;
      one_connect = ap (λ n. 1 + n) rest.no_connect;
      one_disconnect = rest.one_disconnect;
    }
