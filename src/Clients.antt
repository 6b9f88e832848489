-- ===== src/Clients.antt =====
-- Which service the three clients use, and what their destructors do to it: the constructors and
-- destructors of src/websocket_client.cpp, src/socket_client.cpp and src/http_client.cpp.
use mathlib.Core.Option
use slicksocket.Base.{
  ℕ, ◌≡◌, refl, Bool, true, false, not, ◌&&◌, ◌||◌, Option, none, some, List, [], ◌∷◌, ◌++◌, ◌==◌,
  ==_iff, if◌then◌else◌,
}
use slicksocket.Service.Registry.{Registry, global}
use slicksocket.WebSocket.Client.{WebSocketClient, Target, parse}
use slicksocket.RawSocket.{SocketClient}
use slicksocket.Http.{HttpClient}
use slicksocket.Http

-- A client's `service_`, named by its address.
pub record Held : Type 0 where
  pub service : ℕ
  pub is_global : Bool

-- `use_global ? socket_service::global(path) : new socket_service(path)`. `made` is what `new`
-- gives.
pub choose_service : Bool → ℕ → List ℕ → Registry → Held × Registry
choose_service use_global made path l =
    if use_global
    then (record { service = (global made path l).0; is_global = true }, (global made path l).1)
    else (record { service = made; is_global = false }, l)

-- The constructor of `websocket_client`; `none` where `std::stoi` throws.
pub construct_websocket :
    Option ℕ
    → List ℕ
    → List ℕ
    → List ℕ
    → Bool
    → ℕ
    → Registry
    → Option (WebSocketClient × Held × Registry)
unfolding choose_service
construct_websocket callback url origin ca_file_path use_global made l =
    Option.map
      (λ (target : Target). (
        record { callback = callback; request = none; target = target; origin = origin },
        (choose_service use_global made ca_file_path l).0,
        (choose_service use_global made ca_file_path l).1,
      ))
      (parse url)

-- The constructor of `socket_client`, which has no path of certificates.
pub construct_socket : Option ℕ → List ℕ → ℕ → Bool → ℕ → Registry → SocketClient × Held × Registry
unfolding choose_service
construct_socket callback address port use_global made l = (
  record { callback = callback; request = none; address = address; port = port },
  (choose_service use_global made [] l).0,
  (choose_service use_global made [] l).1,
)

-- The constructor of `http_client`; `none` where `std::stoi` throws, which ends the program.
pub construct_http :
    List ℕ → List ℕ → List ℕ → Bool → ℕ → Registry → Option (HttpClient × Held × Registry)
unfolding choose_service
construct_http address origin ca_file_path use_global made l =
    Option.map
      (λ (target : Http.Target). (
        record { target = target; origin = origin },
        (choose_service use_global made ca_file_path l).0,
        (choose_service use_global made ca_file_path l).1,
      ))
      (Http.parse address)

-- What a destructor does with a service: it deletes it, it changes a request of its pool, it wakes
-- it through `service_`, which may be null.
pub data Use : Type 0 where
  deletes : ℕ → Use
  touches : ℕ → Use
  wakes : Option ℕ → Use

abbrev is_deleted : ℕ → List ℕ → Bool
is_deleted a [] = false
is_deleted a (b ∷ l) = a == b || is_deleted a l

-- Whether every use is of a service that is there; `dead` lists those that are deleted.
abbrev pub is_safe : List ℕ → List Use → Bool
is_safe dead [] = true
is_safe dead (deletes a ∷ l) = not (is_deleted a dead) && is_safe (a ∷ dead) l
is_safe dead (touches a ∷ l) = not (is_deleted a dead) && is_safe dead l
is_safe dead (wakes none ∷ l) = false
is_safe dead (wakes (some a) ∷ l) = not (is_deleted a dead) && is_safe dead l

-- The clients' check for a service of their own, and what is left in `service_`.
abbrev pub delete_own : Held → List Use × Option ℕ
delete_own h = if not h.is_global then (deletes h.service ∷ [], none) else ([], some h.service)

-- `websocket_client::stop`, over what is in `service_`. The request is one of the pool of `home`.
abbrev pub stop_websocket : ℕ → Option ℕ → Option ℕ → List Use
stop_websocket home service none = []
stop_websocket home service (some a) = touches home ∷ wakes service ∷ []

-- `socket_client::stop`.
abbrev pub stop_socket : ℕ → Option ℕ → List Use
stop_socket home none = []
stop_socket home (some a) = touches home ∷ []

-- `~websocket_client`: the service goes first, then `stop`.
pub destroy_websocket : WebSocketClient → Held → List Use
destroy_websocket c h = (delete_own h).0 ++ stop_websocket h.service (delete_own h).1 c.request

-- `~socket_client`: `stop` first.
pub destroy_socket : SocketClient → Held → List Use
destroy_socket c h = stop_socket h.service c.request ++ (delete_own h).0

pub destroy_http : Held → List Use
destroy_http h = (delete_own h).0

abbrev pub has_request : Option ℕ → Bool
has_request none = false
has_request (some a) = true

self-eq : (a : ℕ) → (a == a) ≡ true
self-eq a = (==_iff a a).1 refl

-- The destructors, of any client: those of `socket_client` and `http_client` use only services that
-- are there; that of `websocket_client` does so just when the service is shared or the client has no
-- request: with a request and a service of its own it uses the service after it deleted it.
pub destroy-safe :
    (c : WebSocketClient) (d : SocketClient) (h : Held)
    → (is_safe [] (destroy_websocket c h) ≡ (h.is_global || not (has_request c.request)))
      × (is_safe [] (destroy_socket d h) ≡ true)
      × (is_safe [] (destroy_http h) ≡ true)
unfolding destroy_websocket destroy_socket destroy_http
destroy-safe c d h =
    (websocket c.request h.is_global, socket d.request h.is_global, http h.is_global)
  where
    held : Bool → Held
    held b = record { service = h.service; is_global = b }

    websocket :
        (r : Option ℕ) (b : Bool)
        → is_safe [] ((delete_own (held b)).0 ++ stop_websocket h.service (delete_own (held b)).1 r)
          ≡ (b || not (has_request r))
    websocket none true = refl
    websocket none false = refl
    websocket (some a) true = refl
    websocket (some a) false = rw (self-eq h.service) refl

    socket :
        (r : Option ℕ) (b : Bool)
        → is_safe [] (stop_socket h.service r ++ (delete_own (held b)).0) ≡ true
    socket none true = refl
    socket none false = refl
    socket (some a) true = refl
    socket (some a) false = refl

    http : (b : Bool) → is_safe [] (delete_own (held b)).0 ≡ true
    http true = refl
    http false = refl
