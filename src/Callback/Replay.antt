-- ===== src/Callback/Replay.antt =====
-- The calls among the actions of the program, made on the user's object.
use slicksocket.Base.{
  ℕ, ◌≡◌, refl, Bool, false, Option, none, some, List, [], ◌∷◌, ◌++◌, ◌==◌, if◌then◌else◌,
}
use slicksocket.Request.{
  Action, on_connected, on_disconnected, on_error, on_data, on_client_connected,
  on_client_disconnected, on_client_data,
}
use slicksocket.Callback.{ClientCallback, SocketServerCallback}

-- Whether a pointer to a callback object is to the one at this address.
abbrev pub is_at : ℕ → Option ℕ → Bool
is_at p none = false
is_at p (some q) = q == p

module _ {A : Type 0} (cb : ClientCallback A) (p : ℕ) where
  -- What an action makes of the object at address p.
  abbrev pub call : Action → A → A
  call (on_connected to) a = if is_at p to then cb.on_connected a else a
  call (on_disconnected to) a = if is_at p to then cb.on_disconnected a else a
  call (on_error to msg len) a = if is_at p to then cb.on_error msg len a else a
  call (on_data to input len remaining) a =
      if is_at p to then cb.on_data input len remaining a else a
  call _ a = a

  abbrev pub replay : List Action → A → A
  replay [] a = a
  replay (x ∷ acts) a = replay acts (call x a)

  pub replay-append :
      (acts more : List Action) (a : A) → replay (acts ++ more) a ≡ replay more (replay acts a)
  replay-append [] more a = refl
  replay-append (x ∷ acts) more a = replay-append acts more (call x a)

module _ {A : Type 0} (cb : SocketServerCallback A) where
  -- The server has one callback object.
  abbrev pub server_call : Action → A → A
  server_call (on_client_connected w) a = cb.on_client_connected w a
  server_call (on_client_disconnected w) a = cb.on_client_disconnected w a
  server_call (on_client_data w input len) a = cb.on_data w input len a
  server_call _ a = a

  abbrev pub server_replay : List Action → A → A
  server_replay [] a = a
  server_replay (x ∷ acts) a = server_replay acts (server_call x a)

  pub server_replay-append :
      (acts more : List Action) (a : A)
      → server_replay (acts ++ more) a ≡ server_replay more (server_replay acts a)
  server_replay-append [] more a = refl
  server_replay-append (x ∷ acts) more a = server_replay-append acts more (server_call x a)
