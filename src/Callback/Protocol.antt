-- ===== src/Callback/Protocol.antt =====
-- What a client's callback promises its user's object over one connection: the parts of a callback
-- function that matter to it, as an interface, and what follows from them.
use slicksocket.Base.{ℕ, ◌≡◌, Bool, true, false, Option, none, some, List, [], ◌∷◌, if◌then◌else◌}
use slicksocket.StringRing.{StringRing, reset}
use slicksocket.Request.{
  RequestInfo, Event, Reason, Action, Reply, dummy, wsi_destroy, on_disconnected, on_data,
}
use slicksocket.WebSocket.{told, closed, established}
use slicksocket.WebSocket.Connection.{follow}
use slicksocket.Callback.{ClientCallback}
use slicksocket.Callback.Replay.{replay}

-- A reply that neither tells the user's object anything nor changes whose it is.
pub record IsSilent (r : RequestInfo) (out : Reply RequestInfo) : Type 1 where
  pub same_object : out.request.socket_info.callback ≡ r.socket_info.callback
  pub same_flag :
      out.request.socket_info.disconnect_callback_invoked
      ≡ r.socket_info.disconnect_callback_invoked
  pub nothing_told :
      {A : Type 0} (cb : ClientCallback A) (p : ℕ) (a : A) → replay cb p out.actions a ≡ a

-- Such a reply, to a request that goes on.
pub record IsQuiet (IsServed : RequestInfo → Type 0) (r : RequestInfo) (out : Reply RequestInfo)
    : Type 1 where
  pub served : IsServed out.request
  pub silent : IsSilent r out

pub IsQuiet-if :
    {IsServed : RequestInfo → Type 0} {r : RequestInfo} (c : Bool) {x y : Reply RequestInfo}
    → IsQuiet IsServed r x
    → IsQuiet IsServed r y
    → IsQuiet IsServed r (if c then x else y)
IsQuiet-if true s t = s
IsQuiet-if false s t = t

-- What LWS_CALLBACK_WSI_DESTROY tells: nothing, when the user was told before.
abbrev pub farewell : Bool → Option ℕ → List Action
farewell b to = if b then [] else on_disconnected to ∷ []

-- A callback function of a client and the reasons for which it tells its user of a connection.
pub record Protocol : Type 1 where
  pub callback : RequestInfo → Event → Option (Reply RequestInfo)
  pub IsServed : RequestInfo → Type 0
  pub opening : Reason
  pub receiving : Reason
  pub writing : Reason
  pub closing : Reason
  -- What the user is told of what is still to come.
  pub remaining : Event → ℕ
  -- The other reasons that may come while a connection is open.
  pub IsOther : Reason → Type 0
  pub opens :
      (r : RequestInfo) (e : Event) (s : StringRing)
      → IsServed r
      → reset r.socket_info.sending_buffer ≡ some s
      → e.reason ≡ opening
      → (callback r e ≡ some (established r s)) × IsServed (established r s).request
  pub receives :
      (r : RequestInfo) (e : Event)
      → IsServed r
      → e.reason ≡ receiving
      → callback r e
        ≡ some (record {
          request = r;
          answer = dummy;
          actions = on_data r.socket_info.callback e.input e.len (remaining e) ∷ [];
        })
  pub writes :
      (r : RequestInfo) (e : Event)
      → IsServed r
      → e.reason ≡ writing
      → (out : Reply RequestInfo) × (callback r e ≡ some out) × IsQuiet IsServed r out
  pub ignores :
      (r : RequestInfo) (e : Event)
      → IsServed r
      → IsOther e.reason
      → callback r e ≡ some (record { request = r; answer = dummy; actions = [] })
  pub closes :
      (r : RequestInfo) (e : Event)
      → IsServed r
      → e.reason ≡ closing
      → (callback r e
          ≡ some (record {
            request = told (closed r) true;
            answer = dummy;
            actions = on_disconnected r.socket_info.callback ∷ [];
          }))
        × IsServed (told (closed r) true)
  pub destroys :
      (r : RequestInfo) (e : Event)
      → IsServed r
      → e.reason ≡ wsi_destroy
      → callback r e
        ≡ some (record {
          request = told (closed r) true;
          answer = dummy;
          actions = farewell r.socket_info.disconnect_callback_invoked r.socket_info.callback;
        })

-- The callbacks of one connection in their order: the request at the end and all that was done.
abbrev pub run_with :
    (RequestInfo → Event → Option (Reply RequestInfo))
    → List Event
    → RequestInfo
    → Option (RequestInfo × List Action)
run_with callback [] r = some (r, [])
run_with callback (e ∷ es) r = follow (callback r e) (run_with callback es)

-- A piece of data: what is at `in`, `len`, and how much of the message is still to come.
abbrev pub Piece : Type 0
Piece = Option (List ℕ) × ℕ × ℕ

-- What happens while a connection is open: data come in pieces, the client may write, and there may be
-- other callbacks.
pub data Open (c : Protocol) : List Event → List Piece → Type 1 where
  nothing_more : Open c [] []
  received :
      (e : Event) {es : List Event} {ps : List Piece}
      → e.reason ≡ c.receiving
      → Open c es ps
      → Open c (e ∷ es) ((e.input, e.len, c.remaining e) ∷ ps)
  wrote :
      (e : Event) {es : List Event} {ps : List Piece}
      → e.reason ≡ c.writing
      → Open c es ps
      → Open c (e ∷ es) ps
  other :
      (e : Event) {es : List Event} {ps : List Piece}
      → c.IsOther e.reason
      → Open c es ps
      → Open c (e ∷ es) ps

-- How it ends: closed and then destroyed, or destroyed at once.
pub data Ended (c : Protocol) : List Event → Type 1 where
  destroyed : (e : Event) → e.reason ≡ wsi_destroy → Ended c (e ∷ [])
  closed_first :
      (e f : Event) → e.reason ≡ c.closing → f.reason ≡ wsi_destroy → Ended c (e ∷ f ∷ [])

-- The object of a user that is given these pieces in their order.
abbrev pub hear : {A : Type 0} → ClientCallback A → List Piece → A → A
hear cb [] a = a
hear cb ((input, len, remaining) ∷ ps) a = hear cb ps (cb.on_data input len remaining a)

-- What a run does to the object at address p: the request's `wsi` is null at its end.
pub record Leaves {A : Type 0} (cb : ClientCallback A) (p : ℕ) (a b : A)
    (o : Option (RequestInfo × List Action)) : Type 0 where
  pub request : RequestInfo
  pub acts : List Action
  pub gives : o ≡ some (request, acts)
  pub gone : request.wsi ≡ none
  pub user : replay cb p acts a ≡ b
