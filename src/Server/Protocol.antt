-- ===== src/Server/Protocol.antt =====
-- What `socket_server::serve` does to its user's `socket_server_callback_t`.
use slicksocket.Base.{
  ℕ, ◌≡◌, refl, sym, ap, ◌∙◌, Bool, true, false, List, [], ◌∷◌, ◌++◌, if◌then◌else◌,
}
use slicksocket.Request.{
  Event, Reason, Action, on_client_connected, on_client_disconnected, on_client_data, raw_adopt,
  raw_close, raw_rx,
}
use slicksocket.Server.{Clients}
use slicksocket.Server.Serving.{
  Turn, serve, serve-told, told_of, told_all, user_call, user_calls, taken,
}
use slicksocket.Callback.{SocketServerCallback}
use slicksocket.Callback.Replay.{server_call, server_replay, server_replay-append}

-- The object of a user that is told of these events, each of a client's handle.
abbrev pub hear_clients : {A : Type 0} → SocketServerCallback A → List (ℕ × Event) → A → A
hear_clients cb [] a = a
hear_clients cb ((w, ev) ∷ l) a = hear_clients cb l (elim ev.reason [
  | raw_adopt ↦ cb.on_client_connected w a
  | raw_close ↦ cb.on_client_disconnected w a
  | raw_rx ↦ cb.on_data w ev.input ev.len a
  | _ ↦ a
])

module _ {A : Type 0} (cb : SocketServerCallback A) where
  only_user :
      (x : Action) (acts : List Action) (a : A)
      → server_replay cb (user_call x ++ acts) a ≡ server_replay cb acts (server_call cb x a)
  only_user (on_client_connected w) acts a = refl
  only_user (on_client_disconnected w) acts a = refl
  only_user (on_client_data w input len) acts a = refl
  only_user _ acts a = refl

  replay-user_calls :
      (acts : List Action) (a : A) → server_replay cb acts a ≡ server_replay cb (user_calls acts) a
  replay-user_calls [] a = refl
  replay-user_calls (x ∷ acts) a =
      replay-user_calls acts (server_call cb x a) ∙ sym (only_user x (user_calls acts) a)

  told_of-hear :
      (w : ℕ) (ev : Event) (reason : Reason) (a : A)
      → server_replay cb (told_of w (record ev { reason = reason })) a
        ≡ hear_clients cb ((w, record ev { reason = reason }) ∷ []) a
  told_of-hear w ev raw_adopt a = refl
  told_of-hear w ev raw_close a = refl
  told_of-hear w ev raw_rx a = refl
  told_of-hear w ev _ a = refl

  replay-told_all :
      (l : List (ℕ × Event)) (a : A) → server_replay cb (told_all l) a ≡ hear_clients cb l a
  replay-told_all [] a = refl
  replay-told_all ((w, ev) ∷ l) a =
      server_replay-append cb (told_of w ev) (told_all l) a
      ∙ ap (server_replay cb (told_all l)) (told_of-hear w ev ev.reason a)
      ∙ replay-told_all l (hear_clients cb ((w, ev) ∷ []) a)

-- A whole run of the server, for any object of its user: its functions are called for each event of
-- the turns that the loop takes and then for each event that `lws_context_destroy` brings, in their
-- order, with the client's handle: for a new client, for data with its bytes and their number, and
-- for the end of a client; and there is no other call. Without a context there is none at all.
pub serve-hears :
    {A : Type 0} (cb : SocketServerCallback A) (a : A) (written : List ℕ → ℕ) (memory : List ℕ)
    (context : Bool) (clients : Clients) (ts : List Turn) (closing : List (ℕ × Event))
    → server_replay cb (serve written memory context clients ts closing).1 a
      ≡ (if context then hear_clients cb (taken ts ++ closing) a else a)
serve-hears cb a written memory context clients ts closing =
    replay-user_calls cb (serve written memory context clients ts closing).1 a
    ∙ ap (λ l. server_replay cb l a) (serve-told written memory context clients ts closing)
    ∙ by_context context
  where
    by_context :
        (c : Bool)
        → server_replay cb (if c then told_all (taken ts ++ closing) else []) a
          ≡ (if c then hear_clients cb (taken ts ++ closing) a else a)
    by_context true = replay-told_all cb (taken ts ++ closing) a
    by_context false = refl
