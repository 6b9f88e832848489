-- ===== src/Server/Serving.antt =====
-- `socket_server::serve`: its loop over `lws_service`, until `stop` or an error, and
-- `lws_context_destroy` at the end.
use mathlib.Core.List.{append_assoc}
use slicksocket.Base.{
  ℕ, ◌≡◌, refl, arith, sym, ap, ap₂, ◌∙◌, Bool, true, false, Option, none, some, List, [], ◌∷◌,
  ◌++◌, if◌then◌else◌,
}
use slicksocket.StringRing.{Slice, StringRing, read}
use slicksocket.Request.{
  Event, Reason, Action, on_client_connected, on_client_disconnected, on_client_data, raw_adopt,
  raw_close, raw_rx, raw_writeable,
}
use slicksocket.Server.{Clients, find, raw_socket_server_callback, on_reason, write_out, pass_on}

-- One call of `lws_service`: whether `stop` was called before it, the callbacks that it runs, each
-- for a `wsi`, and whether it returns a negative number.
pub record Turn : Type 0 where
  pub stopped : Bool
  pub events : List (ℕ × Event)
  pub fails : Bool

module _ (written : List ℕ → ℕ) (memory : List ℕ) where
  -- The callbacks of one call of `lws_service`.
  pub dispatch : Clients → List (ℕ × Event) → Clients × List Action
  unfolding raw_socket_server_callback
  dispatch clients [] = (clients, [])
  dispatch clients ((w, ev) ∷ l) =
      let reply = raw_socket_server_callback written memory clients w ev in
      let (left, more) = dispatch reply.request l in (left, reply.actions ++ more)

  -- The loop. Its turns are those of the list, or fewer when it ends before.
  pub serve_turns : Clients → List Turn → Clients × List Action
  unfolding dispatch
  serve_turns clients [] = (clients, [])
  serve_turns clients (t ∷ ts) =
      let (clients', acts) = dispatch clients t.events in
      let (left, more) = serve_turns clients' ts in
      if t.stopped
      then (clients, [])
      else if t.fails
      then (clients', acts)
      else (left, acts ++ more)

  -- `serve`; `context` tells whether `lws_create_context` gives one, and `closing` is what
  -- `lws_context_destroy` calls back with, for the connections that are still open.
  pub serve : Bool → Clients → List Turn → List (ℕ × Event) → Clients × List Action
  unfolding serve_turns dispatch
  serve context clients ts closing =
      let (left, acts) = serve_turns clients ts in
      let (last, more) = dispatch left closing in
      if context then (last, acts ++ more) else (clients, [])

-- What the user is told of an event.
abbrev pub told_of : ℕ → Event → List Action
told_of w ev = elim ev.reason [
  | raw_adopt ↦ on_client_connected w ∷ []
  | raw_close ↦ on_client_disconnected w ∷ []
  | raw_rx ↦ on_client_data w ev.input ev.len ∷ []
  | _ ↦ []
]

abbrev pub told_all : List (ℕ × Event) → List Action
told_all [] = []
told_all ((w, ev) ∷ l) = told_of w ev ++ told_all l

-- The calls of the user's object among the actions.
abbrev pub user_call : Action → List Action
user_call (on_client_connected w) = on_client_connected w ∷ []
user_call (on_client_disconnected w) = on_client_disconnected w ∷ []
user_call (on_client_data w input len) = on_client_data w input len ∷ []
user_call _ = []

abbrev pub user_calls : List Action → List Action
user_calls [] = []
user_calls (x ∷ l) = user_call x ++ user_calls l

-- The events of the turns that the loop takes.
abbrev pub taken : List Turn → List (ℕ × Event)
taken [] = []
taken (t ∷ ts) = if t.stopped then [] else if t.fails then t.events else t.events ++ taken ts

user_calls-append : (l m : List Action) → user_calls (l ++ m) ≡ user_calls l ++ user_calls m
user_calls-append [] m = refl
user_calls-append (x ∷ l) m =
    ap (λ k. user_call x ++ k) (user_calls-append l m)
    ∙ sym (append_assoc (user_call x) (user_calls l) (user_calls m))

told_all-append : (l m : List (ℕ × Event)) → told_all (l ++ m) ≡ told_all l ++ told_all m
told_all-append [] m = refl
told_all-append ((w, ev) ∷ l) m =
    ap (λ k. told_of w ev ++ k) (told_all-append l m)
    ∙ sym (append_assoc (told_of w ev) (told_all l) (told_all m))

module _ (written : List ℕ → ℕ) (memory : List ℕ) where
  pass_on-told :
      (clients : Clients) (w len : ℕ) (out : Slice × StringRing)
      → user_calls (pass_on written clients w len out).actions ≡ []
  unfolding pass_on
  pass_on-told clients w len (slice, s) = ground arith

  write_out-told :
      (clients : Clients) (w len : ℕ) (o : Option StringRing)
      → user_calls (write_out written clients w len o).actions ≡ []
  write_out-told clients w len none = refl
  write_out-told clients w len (some s) = pass_on-told clients w len (read s)

  on_reason-told :
      (clients : Clients) (w : ℕ) (ev : Event) (reason : Reason)
      → user_calls (on_reason written memory clients w ev reason).actions
        ≡ told_of w (record ev { reason = reason })
  unfolding on_reason
  on_reason-told clients w ev raw_adopt = refl
  on_reason-told clients w ev raw_close = refl
  on_reason-told clients w ev raw_rx = refl
  on_reason-told clients w ev raw_writeable = write_out-told clients w ev.len (find clients w)
  on_reason-told clients w ev _ = refl

  dispatch-told :
      (clients : Clients) (l : List (ℕ × Event))
      → user_calls (dispatch written memory clients l).1 ≡ told_all l
  unfolding dispatch raw_socket_server_callback
  dispatch-told clients [] = refl
  dispatch-told clients ((w, ev) ∷ l) =
      let reply = raw_socket_server_callback written memory clients w ev in
      user_calls-append reply.actions (dispatch written memory reply.request l).1
      ∙ ap₂ ◌++◌ (on_reason-told clients w ev ev.reason) (dispatch-told reply.request l)

  if-told :
      (b : Bool) (x y : Clients × List Action) (l m : List (ℕ × Event))
      → user_calls x.1 ≡ told_all l
      → user_calls y.1 ≡ told_all m
      → user_calls (if b then x else y).1 ≡ told_all (if b then l else m)
  if-told true x y l m e f = e
  if-told false x y l m e f = f

  serve_turns-told :
      (clients : Clients) (ts : List Turn)
      → user_calls (serve_turns written memory clients ts).1 ≡ told_all (taken ts)
  unfolding serve_turns
  serve_turns-told clients [] = refl
  serve_turns-told clients (t ∷ ts) = if-told t.stopped _ _ _ _ refl (
      if-told t.fails _ _ _ _ (dispatch-told clients t.events) (
        user_calls-append (dispatch written memory clients t.events).1
          (serve_turns written memory (dispatch written memory clients t.events).0 ts).1
        ∙ ap₂ ◌++◌ (dispatch-told clients t.events)
            (serve_turns-told (dispatch written memory clients t.events).0 ts)
        ∙ sym (told_all-append t.events (taken ts))))

-- A whole run of the server: the user's object is told of each event of the turns that the loop
-- takes and then of each that destroying the context brings, in their order, of a new client, of its
-- data and of its end, and of nothing else; without a context it is told nothing.
pub serve-told :
    (written : List ℕ → ℕ) (memory : List ℕ) (context : Bool) (clients : Clients) (ts : List Turn)
    (closing : List (ℕ × Event))
    → user_calls (serve written memory context clients ts closing).1
      ≡ (if context then told_all (taken ts ++ closing) else [])
unfolding serve
serve-told written memory true clients ts closing =
    let (left, acts) = serve_turns written memory clients ts in
    user_calls-append acts (dispatch written memory left closing).1
    ∙ ap₂ ◌++◌ (serve_turns-told written memory clients ts)
        (dispatch-told written memory left closing)
    ∙ sym (told_all-append (taken ts) closing)
serve-told written memory false clients ts closing = refl
