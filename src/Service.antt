-- ===== src/Service.antt =====
-- `socket_service` of src/socket_service.h and src/socket_service.cpp: the thread that takes the
-- clients' requests from the queue, runs libwebsockets and clears up what is over. A request is
-- named by its address; `infos` is the memory of the requests. `requests_` is a set; here it is the
-- list of its elements in the order of a walk through it.
pub mod Sweep
pub mod Lifecycle
pub mod Rounds
pub mod Serving
pub mod Registry
pub mod Completion
use slicksocket.Base.{
  ℕ, ◌+◌, Bool, true, false, not, ◌||◌, ◌&&◌, Option, none, some, List, [], ◌∷◌, ◌++◌, map, ltb,
  leb, ◌==◌, if◌then◌else◌, add64,
}
use slicksocket.Pool.{Pool, get_obj, release_obj}
use slicksocket.Ring.{Ring, Slot, at, available, reserve, store, publish}
use slicksocket.Request.{
  RequestType, http, ws, socket, is_http, ConnectInfo, RequestInfo, HttpInfo, HttpResponse,
  new_info, Action, on_response, callback_on_writable, cancel_service, client_connect,
}

abbrev pub Infos : Type 0
Infos = ℕ → RequestInfo

abbrev pub put : Infos → ℕ → RequestInfo → Infos
put f a r b = if a == b then r else f b

pub record Service : Type 0 where
  pub has_context : Bool
  pub cursor : ℕ
  pub run : Bool
  pub thread : Bool
  pub request_pool : Pool
  pub request_queue : Ring ℕ
  pub ca_file_path : List ℕ
  pub is_global : Bool
  pub requests : List ℕ
  pub infos : Infos

-- Whether the pool made the object itself.
abbrev pub pooled : Pool → ℕ → Bool
pooled p a = leb p.base a && ltb a (p.base + p.size)

-- `get_request_info`. `heap` and `memory` are what `new` returns, should it be called.
pub get_request_info : Service → Option ℕ → List ℕ → RequestType → Option ℕ × Service
get_request_info s heap memory t = if not s.has_context then (none, s) else elim out.0 [
  | none ↦ (none, record s { request_pool = out.1 })
  | some a ↦ (some a, record s { request_pool = out.1; infos = put s.infos a (made a) })
]
  where
    out : Option ℕ × Pool
    out = get_obj s.request_pool heap

    made : ℕ → RequestInfo
    made a = if pooled s.request_pool a then record (s.infos a) { type = t } else new_info memory t

pub release_request : Service → ℕ → Service
release_request s a = record s { request_pool = release_obj s.request_pool a }

-- `request`; `none` while another thread has not published its slot. `wakeup` is its last line.
pub request : Service → ℕ → Option (Service × List Action)
request s a = elim (publish (store out.1 out.0 0 a) out.0) [
  | none ↦ none
  | some q ↦ some (record s { request_queue = q }, cancel_service ∷ [])
]
  where
    out : Slot × Ring ℕ
    out = reserve s.request_queue 1

-- `notify_all`: the connections that are asked for a callback when they are writable.
pub notify_all : Infos → List ℕ → List ℕ
notify_all infos [] = []
notify_all infos (a ∷ l) =
    let rest = notify_all infos l in elim (infos a).wsi [ none ↦ rest | some w ↦ w ∷ rest ]

abbrev pub contains : ℕ → List ℕ → Bool
contains a [] = false
contains a (b ∷ l) = a == b || contains a l

-- `serve`, on taking a request from the queue. Its call of `lws_client_connect_via_info` is the
-- action, and `connect` what that does to the requests.
pub accept : (ConnectInfo → Infos → Infos) → Service → ℕ → Service × List Action
accept connect s a = (
  record s {
    cursor = add64 s.cursor 1;
    requests = if contains a s.requests then s.requests else a ∷ s.requests;
    infos = connect ready.cci (put s.infos a ready);
  },
  client_connect a ready.cci ∷ [],
)
  where
    ready : RequestInfo
    ready = record (s.infos a) {
      has_service = true;
      cci = record (s.infos a).cci { has_context = true };
    }

-- The request that is next in the queue.
unfoldable pub next_request : Service → Option ℕ
next_request s = if s.cursor == available s.request_queue then none else at s.request_queue s.cursor

abbrev pub accept_next : (ConnectInfo → Infos → Infos) → Service → Option ℕ → Service × List Action
accept_next connect s none = (s, [])
accept_next connect s (some a) = accept connect s a

unfoldable pub take_request : (ConnectInfo → Infos → Infos) → Service → Service × List Action
unfolding accept next_request
take_request connect s = accept_next connect s (next_request s)

-- What `serve` does to a request at the end of a round.
pub data Fate : Type 0 where
  keeps drops releases : Fate
  answers : ℕ → HttpResponse → Fate

abbrev pub response_of : HttpInfo → HttpResponse
response_of h = record {
  status = h.status;
  content_type = h.content_type;
  response_text = h.response;
}

unfoldable pub fate : RequestInfo → Fate
fate r = elim r.wsi [
  | some w ↦ keeps
  | none ↦
      if is_http r.type
      then elim r.http_info.callback [ none ↦ drops | some c ↦ answers c (response_of r.http_info) ]
      else if r.socket_info.shutdown
      then releases
      else keeps
]

pub complete : RequestInfo → RequestInfo
complete r = record r { http_info = record r.http_info { completed = true } }

-- The service, the calls of the user's functions, and whether the request stays in the set.
pub visit : Fate → ℕ → Service → Service × List Action × Bool
unfolding complete
visit keeps a s = (s, [], true)
visit drops a s = (record s { infos = put s.infos a (complete (s.infos a)) }, [], false)
visit releases a s = (release_request s a, [], false)
visit (answers c response) a s = (
  release_request (record s { infos = put s.infos a (complete (s.infos a)) }) a,
  on_response c response ∷ [],
  false,
)

-- The loop at the end of a round: the service, the calls and what is left of the set.
pub sweep : List ℕ → Service → Service × List Action × List ℕ
unfolding visit fate
sweep [] s = (s, [], [])
sweep (a ∷ l) s =
    let (s', acts, stays) = visit (fate (s.infos a)) a s in
    let (s'', more, left) = sweep l s' in (s'', acts ++ more, if stays then a ∷ left else left)

-- A round of `serve`: without requests it ends here. `lws_service` is what libwebsockets and the
-- callbacks do to the requests.
pub finish_round : (Infos → Infos) → Service → List ℕ → Service × List Action
unfolding sweep
finish_round lws_service s [] = (s, [])
finish_round lws_service s (a ∷ l) =
    let (s', acts, left) = sweep (a ∷ l) (record s { infos = lws_service s.infos }) in
    (record s' { requests = left }, acts)

pub serve_round : (ConnectInfo → Infos → Infos) → (Infos → Infos) → Service → Service × List Action
unfolding take_request finish_round
serve_round connect lws_service s =
    let (s', connects) = take_request connect s in
    let (s'', acts) = finish_round lws_service s' s'.requests in (s'', connects ++ acts)
