-- ===== src/Tests.antt =====
-- The requests, buffers and services at which the theorems are applied. LWS_PRE is 2, and the
-- buffers have 16 bytes.
mod WebSockets
mod Sockets
mod Texts
mod Services
mod Protocols
use slicksocket.Base.{
  ℕ, ◌≡◌, ◌⊎◌, refl, inl, true, false, none, some, List, [], ◌∷◌, ◌++◌, IsPowerOfTwo, arith, length,
  ◌==◌, if◌then◌else◌, ◌||◌, Bool,
}
use slicksocket.StringRing.{StringRing}
use slicksocket.StringRing.Lifecycle.{reset-IsReady}
use slicksocket.StringRing.View.{IsReady}
use slicksocket.Request.{
  RequestInfo, RequestType, ws, http, socket, Event, Reason, client_established, client_writeable,
  client_receive, client_closed, wsi_destroy, raw_adopt, raw_close, callback_on_writable,
  cancel_service,
}
use slicksocket.Service.{Service, sweep}
use slicksocket.Service.Sweep.{sweep-eq, all_calls, kept, release_all}
use slicksocket.RawSocket
use slicksocket.RawSocket.Sending.{send-append, writeable-passes}
use slicksocket.Server
use slicksocket.Server.Sending.{Queues, send-Queues, reconnect-keeps_buffer}
use slicksocket.Http
use slicksocket.Http.Address.{parse-http}
use slicksocket.Http.Callback.{Lws, http_callback}
use slicksocket.Http.Callback.Completion.{is_failure, is_last, http_callback-completes}
use slicksocket.Url.{no_port}
use slicksocket.WebSocket.{done, send, put_buffer, writeable}
use slicksocket.WebSocket.Sending.{send-IsReady, Sends, writeable-Sends}
use slicksocket.WebSocket.Connection.{run, closes, HeardOnce, connection-HeardOnce}
use slicksocket.WebSocket.Client.Parsing.{parse-host, parse-short_host}
use slicksocket.WebSocket.Client.{parse, root, ws_text, wss_text, separator}

abbrev zeros16 : List ℕ
zeros16 = 0 ∷ 0 ∷ 0 ∷ 0 ∷ 0 ∷ 0 ∷ 0 ∷ 0 ∷ 0 ∷ 0 ∷ 0 ∷ 0 ∷ 0 ∷ 0 ∷ 0 ∷ 0 ∷ []

-- An empty buffer, with both ends at position 3.
abbrev empty_ring : StringRing
empty_ring = record {
  buffer = zeros16;
  size = 16;
  writing_cursor = 0;
  writing_begin = 3;
  reading_cursor = 3;
  total = 0;
  remaining = 0;
  reset_count = 0;
  skip = false;
  cursor = 3;
  reserved = 3;
  reading_begin = 3;
  writing = false;
  resetting = false;
}

-- The buffer with the string 48 0 9.
abbrev full_ring : StringRing
full_ring = record empty_ring {
  buffer = 0 ∷ 3 ∷ 0 ∷ 0 ∷ 0 ∷ 48 ∷ 0 ∷ 9 ∷ 0 ∷ 0 ∷ 0 ∷ 0 ∷ 0 ∷ 0 ∷ 0 ∷ 0 ∷ [];
  writing_begin = 8;
  reading_cursor = 0;
  cursor = 8;
  reserved = 8;
  reading_begin = 0;
}

power16 : IsPowerOfTwo 16
power16 = record { exponent = 4; is_power = refl }

empty-IsReady : IsReady empty_ring []
empty-IsReady = record {
  power = power16;
  small = omega arith;
  allocated = refl;
  unskipped = refl;
  idle = refl;
  quiet = refl;
  unlocked = refl;
  published = refl;
  claimed = refl;
  bounded = omega arith;
  behind = omega arith;
  room = omega arith;
  reader = omega arith;
  strings = refl;
}

full-IsReady : IsReady full_ring ((48 ∷ 0 ∷ 9 ∷ []) ∷ [])
full-IsReady = record {
  power = power16;
  small = omega arith;
  allocated = refl;
  unskipped = refl;
  idle = refl;
  quiet = refl;
  unlocked = refl;
  published = refl;
  claimed = refl;
  bounded = omega arith;
  behind = omega arith;
  room = omega arith;
  reader = refl;
  strings = (
    0,
    inl refl,
    record { flag = refl; fits = omega arith; nonempty = omega arith; len = refl; body = refl },
    refl,
  );
}

-- A connected request over a buffer.
abbrev connected : RequestType → StringRing → RequestInfo
connected t s = record {
  wsi = some 77;
  has_service = true;
  type = t;
  path = [];
  cci = record {
    port = 80;
    address = none;
    host = none;
    origin = none;
    path = none;
    protocol = [];
    method = [];
    alpn = [];
    ssl_connection = false;
    has_context = true;
    userdata = none;
  };
  http_info = record {
    status = 200;
    request = none;
    callback = some 5;
    response = 1 ∷ 2 ∷ [];
    content_type = [];
    completed = false;
  };
  socket_info = record {
    callback = some 6;
    sending_buffer = s;
    shutdown = false;
    disconnect_callback_invoked = true;
  };
}

abbrev event : Reason → Event
event reason = record { reason = reason; input = none; len = 0; remaining = 0 }

-- Of two requests, one is over.
abbrev service : Service
service = record {
  has_context = true;
  cursor = 2;
  run = true;
  thread = true;
  request_pool = record {
    base = 100;
    index = 0 ∷ 1 ∷ [];
    read_cursor = 1;
    write_cursor = 0;
    size = 2;
  };
  request_queue = record { buffer = 100 ∷ 101 ∷ []; capacity = 2; cursor = 2; reserved = 2 };
  ca_file_path = [];
  is_global = false;
  requests = 100 ∷ 101 ∷ [];
  infos = λ a.
      if a == 100
      then record (connected http empty_ring) { wsi = none }
      else connected http empty_ring;
}

abbrev lws : Lws
lws = record {
  header_fails = λ hs h. false;
  written = length;
  status = 200;
  content_type = [];
  content_type_length = 0;
  read_fails = false;
  debug = true;
}
