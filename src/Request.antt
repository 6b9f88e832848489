-- ===== src/Request.antt =====
-- What the clients and the service's thread share: `request_info` and its parts of
-- src/socket_service.h, `http_request` and `http_response` of include/slicksocket/http_client.h,
-- and how the callbacks of libwebsockets are called and answer. A pointer that may be null is an
-- `Option`; a text is the list of its characters.
use slicksocket.Base.{ℕ, Bool, true, false, Option, none, List, []}
use slicksocket.StringRing.{StringRing, fresh}

pub data RequestType : Type 0 where
  http ws socket : RequestType

abbrev pub is_http : RequestType → Bool
is_http http = true
is_http ws = false
is_http socket = false

abbrev pub is_ws : RequestType → Bool
is_ws http = false
is_ws ws = true
is_ws socket = false

abbrev pub is_socket : RequestType → Bool
is_socket http = false
is_socket ws = false
is_socket socket = true

pub record HttpRequest : Type 0 where
  pub body : List ℕ
  pub content_type : List ℕ
  pub headers : List (List ℕ × List ℕ)

pub record HttpResponse : Type 0 where
  pub status : ℕ
  pub content_type : List ℕ
  pub response_text : List ℕ

-- `callback` names the function that the user gave.
pub record HttpInfo : Type 0 where
  pub status : ℕ
  pub request : Option HttpRequest
  pub callback : Option ℕ
  pub response : List ℕ
  pub content_type : List ℕ
  pub completed : Bool

pub record SocketInfo : Type 0 where
  pub callback : Option ℕ
  pub sending_buffer : StringRing
  pub shutdown : Bool
  pub disconnect_callback_invoked : Bool

-- `lws_client_connect_info`, as far as the clients fill it. A port is the bits of an `int`.
pub record ConnectInfo : Type 0 where
  pub port : ℕ
  pub address : Option (List ℕ)
  pub host : Option (List ℕ)
  pub origin : Option (List ℕ)
  pub path : Option (List ℕ)
  pub protocol : List ℕ
  pub method : List ℕ
  pub alpn : List ℕ
  pub ssl_connection : Bool
  pub has_context : Bool
  pub userdata : Option ℕ

-- After `memset`.
abbrev pub no_info : ConnectInfo
no_info = record {
  port = 0;
  address = none;
  host = none;
  origin = none;
  path = none;
  protocol = [];
  method = [];
  alpn = [];
  ssl_connection = false;
  has_context = false;
  userdata = none;
}

pub record RequestInfo : Type 0 where
  pub wsi : Option ℕ
  pub has_service : Bool
  pub type : RequestType
  pub path : List ℕ
  pub cci : ConnectInfo
  pub http_info : HttpInfo
  pub socket_info : SocketInfo

-- A request as `new` makes it; `memory` is that of its sending buffer.
pub new_info : List ℕ → RequestType → RequestInfo
new_info memory t = record {
  wsi = none;
  has_service = false;
  type = t;
  path = [];
  cci = no_info;
  http_info = record {
    status = 0;
    request = none;
    callback = none;
    response = [];
    content_type = [];
    completed = false;
  };
  socket_info = record {
    callback = none;
    sending_buffer = fresh memory 8192;
    shutdown = false;
    disconnect_callback_invoked = false;
  };
}

-- The reasons for a callback that the source names, and `other`.
pub data Reason : Type 0 where
  client_connection_error client_append_handshake_header client_http_writeable : Reason
  established_client_http receive_client_http receive_client_http_read : Reason
  completed_client_http closed_client_http wsi_destroy : Reason
  client_established client_writeable client_receive client_closed event_wait_cancelled : Reason
  raw_connected raw_writeable raw_rx raw_close raw_adopt protocol_init protocol_destroy : Reason
  other : Reason

-- The arguments of a callback: what is at `in`, and `len`; and what `lws_remaining_packet_payload`
-- returns in it.
pub record Event : Type 0 where
  pub reason : Reason
  pub input : Option (List ℕ)
  pub len : ℕ
  pub remaining : ℕ

-- What a callback returns: a number, or what `lws_callback_http_dummy` returns; or it does not
-- return, because an assertion fails.
pub data Answer : Type 0 where
  dummy minus_one zero one aborts : Answer

-- What the program asks of libwebsockets and tells the user's callback objects.
pub data Action : Type 0 where
  on_connected on_disconnected : Option ℕ → Action
  on_error : Option ℕ → Option (List ℕ) → ℕ → Action
  on_data : Option ℕ → Option (List ℕ) → ℕ → ℕ → Action
  on_response : ℕ → HttpResponse → Action
  on_client_connected on_client_disconnected : ℕ → Action
  on_client_data : ℕ → Option (List ℕ) → ℕ → Action
  lws_write : List ℕ → Action
  callback_on_writable cancel_service : Action
  -- `lws_client_connect_via_info`, with the `cci` of the request at this address.
  client_connect : ℕ → ConnectInfo → Action
  body_pending : Bool → Action
  add_http_header : List ℕ → List ℕ → Action

-- A callback's answer, what it leaves of its request, and what it did in order.
pub record Reply (A : Type 0) : Type 0 where
  pub request : A
  pub answer : Answer
  pub actions : List Action
