-- ===== src/WebSocket/Client.antt =====
-- `websocket_client` of src/websocket_client.cpp: the constructor's reading of the URL, `connect`
-- and `stop`.
pub mod Parsing
use mathlib.Core.Option
use slicksocket.Base.{
  ◌++◌, ℕ, suc, ◌+◌, ◌≡◌, ap, ◌∙◌, Bool, true, false, ◌||◌, Option, none, some, List, [], ◌∷◌, ◌==◌,
  if◌then◌else◌, take, drop,
}
use slicksocket.StringRing.{StringRing, reset}
use slicksocket.Url.{find_char, find_text, stoi, int16_of, int_of, no_port, colon, slash, same_text}
use slicksocket.Request.{
  ws, RequestInfo, ConnectInfo, no_info, Action, callback_on_writable, cancel_service,
}
use slicksocket.Service.{Service, put, get_request_info, request}

-- The parts of a URL: what is before "://", the address with its port, and the path.
pub record Parts : Type 0 where
  pub protocol : List ℕ
  pub address : List ℕ
  pub path : List ℕ

abbrev pub root : List ℕ
root = slash ∷ []

-- "://", "wss" and "ws".
abbrev pub separator : List ℕ
separator = 58 ∷ 47 ∷ 47 ∷ []

abbrev pub wss_text : List ℕ
wss_text = 119 ∷ 115 ∷ 115 ∷ []

abbrev pub ws_text : List ℕ
ws_text = 119 ∷ 115 ∷ []

-- The address and the path behind the protocol, where the first slash is known.
abbrev pub cut_path : List ℕ → List ℕ → Option ℕ → Parts
cut_path protocol t none = record { protocol = protocol; address = t; path = root }
cut_path protocol t (some i) = record { protocol = protocol; address = take i t; path = drop i t }

pub split_path : List ℕ → List ℕ → Parts
split_path protocol t = cut_path protocol t (find_char slash t)

pub split : List ℕ → Parts
unfolding split_path
split url = elim (find_text separator url) [
  | none ↦ split_path wss_text url
  | some i ↦ split_path (take i url) (drop (i + 3) url)
]

-- The members that the constructor sets.
pub record Target : Type 0 where
  pub address : List ℕ
  pub path : List ℕ
  pub port : ℕ

abbrev pub with_default : List ℕ → ℕ → ℕ
with_default protocol port =
    if port == no_port then if same_text protocol ws_text then 80 else 443 else port

abbrev pub whole : Parts → Target
whole p = record { address = p.address; path = p.path; port = with_default p.protocol no_port }

-- The port of the address, where there is a colon at another place than 3 and 4; `none` where
-- `std::stoi` throws.
abbrev pub cut_port : Parts → Option ℕ → Option Target
cut_port p none = some (whole p)
cut_port p (some i) =
    if i == 3 || i == 4
    then some (whole p)
    else Option.map
        (λ n. record {
          address = take i p.address;
          path = p.path;
          port = with_default p.protocol (int16_of n);
        })
        (stoi (drop (suc i) p.address))

pub take_port : Parts → Option Target
take_port p = cut_port p (find_char colon p.address)

pub parse : List ℕ → Option Target
unfolding split take_port
parse url = take_port (split url)

pub record WebSocketClient : Type 0 where
  pub callback : Option ℕ
  pub request : Option ℕ
  pub target : Target
  pub origin : List ℕ

-- What a call has made of the client and the service, and asked of libwebsockets.
pub record After (C : Type 0) : Type 0 where
  pub result : Bool
  pub client : C
  pub service : Service
  pub actions : List Action

abbrev pub set_shutdown : RequestInfo → Bool → RequestInfo
set_shutdown r b = record r { socket_info = record r.socket_info { shutdown = b } }

abbrev pub shut_down : Service → Option ℕ → Service
shut_down s none = s
shut_down s (some a) = record s { infos = put s.infos a (set_shutdown (s.infos a) true) }

-- A request of a client, with the client's callback, its buffer emptied, and not shut down.
abbrev pub ready : RequestInfo → ConnectInfo → Option ℕ → StringRing → RequestInfo
ready r cci callback buffer = record r {
  cci = cci;
  socket_info = record r.socket_info {
    callback = callback;
    sending_buffer = buffer;
    shutdown = false;
  };
}

-- The end of `connect`: the buffer is reset and the request goes into the queue; `none` while it
-- waits for another thread.
pub submit : Service → ℕ → ConnectInfo → Option ℕ → Option (Service × List Action)
submit s a cci callback =
    Option.bind (reset (s.infos a).socket_info.sending_buffer) λ buffer.
      request (record s { infos = put s.infos a (ready (s.infos a) cci callback buffer) }) a

abbrev pub origin_of : List ℕ → Option (List ℕ)
origin_of [] = none
origin_of (c ∷ cs) = some (c ∷ cs)

abbrev pub ws_connect_info : WebSocketClient → ℕ → ConnectInfo
ws_connect_info c a = record no_info {
  port = int_of c.target.port;
  address = some c.target.address;
  host = some c.target.address;
  origin = origin_of c.origin;
  path = some c.target.path;
  protocol = ws_text;
  userdata = some a;
  ssl_connection = c.target.port == 443;
}

-- `websocket_client::connect`; `heap` and `memory` are what `new` gives.
pub connect : WebSocketClient → Service → Option ℕ → List ℕ → Option (After WebSocketClient)
unfolding submit
connect c s heap memory = elim out.0 [
  | none ↦ some (record {
    result = false;
    client = record c { request = none };
    service = out.1;
    actions = [];
  })
  | some a ↦
      Option.map
        (λ (t : Service × List Action). record {
          result = true;
          client = record c { request = some a };
          service = t.0;
          actions = t.1;
        })
        (submit out.1 a (ws_connect_info c a) c.callback)
]
  where
    out : Option ℕ × Service
    out = get_request_info (shut_down s c.request) heap memory ws

-- `websocket_client::stop`.
unfoldable pub stop : WebSocketClient → Service → After WebSocketClient
stop c s = elim c.request [
  | none ↦ record { result = true; client = c; service = s; actions = [] }
  | some a ↦ record {
    result = true;
    client = record c { request = none };
    service = shut_down s (some a);
    actions = elim (s.infos a).wsi [
      | none ↦ cancel_service ∷ []
      | some w ↦ callback_on_writable ∷ cancel_service ∷ []
    ];
  }
]
