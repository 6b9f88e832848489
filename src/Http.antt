-- ===== src/Http.antt =====
-- `http_client` of src/http_client.cpp and include/slicksocket/http_client.h: the constructor's
-- reading of the address, and the requests. `Callback` has what the service's thread runs.
pub mod Callback
pub mod Address
pub mod Headers
pub mod Waiting
use mathlib.Core.Option
use slicksocket.Base.{
  ℕ, suc, ◌+◌, Bool, true, false, not, ◌&&◌, ◌||◌, Option, none, some, List, [], ◌∷◌, ◌++◌, ◌==◌,
  if◌then◌else◌, drop, length, sub64,
}
use slicksocket.Url.{
  find_char, find_text, substr, stoi, int16_of, int_of, no_port, colon, same_text,
}
use slicksocket.Request.{
  http, RequestInfo, HttpRequest, HttpResponse, HttpInfo, ConnectInfo, no_info, Action, on_response,
}
use slicksocket.Service.{Service, put, get_request_info, request, release_request, response_of}

abbrev pub https_text : List ℕ
https_text = 104 ∷ 116 ∷ 116 ∷ 112 ∷ 115 ∷ 58 ∷ 47 ∷ 47 ∷ []

abbrev pub http_text : List ℕ
http_text = 104 ∷ 116 ∷ 116 ∷ 112 ∷ 58 ∷ 47 ∷ 47 ∷ []

abbrev pub http_name : List ℕ
http_name = 104 ∷ 116 ∷ 116 ∷ 112 ∷ []

abbrev pub alpn_text : List ℕ
alpn_text = 104 ∷ 116 ∷ 116 ∷ 112 ∷ 47 ∷ 49 ∷ 46 ∷ 49 ∷ []

-- The address and the bits of the port.
pub record Target : Type 0 where
  pub address : List ℕ
  pub port : ℕ

abbrev pub contains : List ℕ → List ℕ → Bool
contains t s = elim (find_text t s) [ none ↦ false | some i ↦ true ]

-- The end of the constructor: `cut` is the place of the port's colon, if there is a port.
pub strip : List ℕ → Option ℕ → ℕ → Target
strip text cut port =
    if contains https_text text
    then record { address = rest 8; port = if port == no_port then 443 else port }
    else if contains http_text text
    then record { address = rest 7; port = if port == 0 then 80 else port }
    else record { address = text; port = port }
  where
    rest : ℕ → List ℕ
    rest n = elim cut [ none ↦ drop n text | some i ↦ substr text n (sub64 i n) ]

-- The constructor on an address; `none` where `std::stoi` throws, which ends the program.
pub parse : List ℕ → Option Target
unfolding strip
parse text = elim (find_char colon text) [
  | none ↦ some (strip text none no_port)
  | some pos ↦
      if pos == 4 || pos == 5
      then some (strip text none no_port)
      else Option.map (λ n. strip text (some pos) (int16_of n)) (stoi (drop (suc pos) text))
]

pub record HttpClient : Type 0 where
  pub target : Target
  pub origin : List ℕ

abbrev pub last_is_colon : List ℕ → Bool
last_is_colon [] = false
last_is_colon (c ∷ []) = c == colon
last_is_colon (c ∷ d ∷ cs) = last_is_colon (d ∷ cs)

abbrev pub has_key : List ℕ → List (List ℕ × List ℕ) → Bool
has_key k [] = false
has_key k ((j, v) ∷ l) = same_text j k || has_key k l

abbrev pub header_name : List ℕ → List ℕ
header_name key = if last_is_colon key then key else key ++ colon ∷ []

-- `add_header`, for a key that is not empty. A key that is there keeps its value.
pub add_header : HttpRequest → List ℕ → List ℕ → HttpRequest
add_header r key value =
    if has_key (header_name key) r.headers
    then r
    else record r { headers = (header_name key, value) ∷ r.headers }

pub add_body : HttpRequest → List ℕ → List ℕ → HttpRequest
add_body r body content_type = record r { body = body; content_type = content_type }

-- What all three requests put into `cci`.
abbrev pub connect_info : Target → List ℕ → List ℕ → Option (List ℕ) → ℕ → ConnectInfo
connect_info target method path origin a = record no_info {
  port = int_of target.port;
  address = some target.address;
  host = some target.address;
  origin = origin;
  alpn = alpn_text;
  path = some path;
  userdata = some a;
  protocol = http_name;
  method = method;
  ssl_connection = target.port == 443;
}

pub prepare : RequestInfo → ConnectInfo → List ℕ → Option HttpRequest → Option ℕ → RequestInfo
prepare r cci path req callback = record r {
  path = path;
  cci = cci;
  http_info = record r.http_info { request = req; callback = callback };
}

-- `std::string("")` and the text of the answer when there is no request to be had.
abbrev pub failed_text : List ℕ
failed_text =
    70 ∷ 97 ∷ 105 ∷ 108 ∷ 101 ∷ 100 ∷ 32 ∷ 116 ∷ 111 ∷ 32 ∷ 99 ∷ 114 ∷ 101 ∷ 97 ∷ 116 ∷ 101 ∷ 32
    ∷ 108 ∷ 119 ∷ 115 ∷ 95 ∷ 99 ∷ 111 ∷ 110 ∷ 116 ∷ 101 ∷ 120 ∷ 116 ∷ []

abbrev pub failed : HttpResponse
failed = record { status = 500; content_type = []; response_text = failed_text }

-- How a request begins: it is answered at once, it is in the service's queue, or the thread waits
-- for another one to publish.
pub data Begun : Type 0 where
  refused : HttpResponse → Service → Begun
  queued : ℕ → Service → List Action → Begun
  waiting : Begun

abbrev pub enqueue : ℕ → Option (Service × List Action) → Begun
enqueue a none = waiting
enqueue a (some (s, acts)) = queued a s acts

pub begin :
    Service → Option ℕ → List ℕ → (ℕ → ConnectInfo) → List ℕ → Option HttpRequest → Option ℕ → Begun
unfolding prepare
begin s heap memory cci path req callback = elim out.0 [
  | none ↦ refused failed out.1
  | some a ↦ enqueue a (
      request
        (record out.1 {
          infos = put out.1.infos a (prepare (out.1.infos a) (cci a) path req callback);
        })
        a)
]
  where
    out : Option ℕ × Service
    out = get_request_info s heap memory http

-- The synchronous `request`, up to its wait, and after it: `wait_done` has `none` while it waits.
pub request_sync :
    HttpClient → Service → Option ℕ → List ℕ → List ℕ → List ℕ → Option HttpRequest → Begun
unfolding begin
request_sync c s heap memory method path req =
    begin s heap memory
      (connect_info c.target method path (elim c.origin [ [] ↦ none | x ∷ xs ↦ some (x ∷ xs) ]))
      path req none

pub wait_done : Service → ℕ → Option (HttpResponse × Service)
wait_done s a =
    if (s.infos a).http_info.completed
    then some (response_of (s.infos a).http_info, release_request s a)
    else none

-- The asynchronous requests, without and with a request's headers and body.
pub request_async :
    HttpClient → Service → Option ℕ → List ℕ → List ℕ → List ℕ → Option HttpRequest → ℕ → Begun
unfolding begin
request_async c s heap memory method path req callback =
    begin s heap memory (connect_info c.target method path (some c.target.address)) path req
      (some callback)
