-- ===== src/Callback.antt =====
-- include/slicksocket/callback.h: what the user of a client or of the server implements. An object
-- of the user is a state, and each function of the interface says what a call makes of it.
pub mod Replay
pub mod Protocol
pub mod Connection
use slicksocket.Base.{ℕ, Option, List}

-- `client_callback_t`. A pointer to characters may be null.
pub record ClientCallback (A : Type 0) : Type 0 where
  pub on_connected : A → A
  pub on_disconnected : A → A
  pub on_error : Option (List ℕ) → ℕ → A → A
  pub on_data : Option (List ℕ) → ℕ → ℕ → A → A

-- `socket_server_callback_t`; the first argument is the client's handle.
pub record SocketServerCallback (A : Type 0) : Type 0 where
  pub on_client_connected : ℕ → A → A
  pub on_client_disconnected : ℕ → A → A
  pub on_error : ℕ → Option (List ℕ) → ℕ → A → A
  pub on_data : ℕ → Option (List ℕ) → ℕ → A → A
