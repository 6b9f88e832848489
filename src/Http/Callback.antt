-- ===== src/Http/Callback.antt =====
-- `http_callback` of src/http_client.cpp. What libwebsockets returns is in `Lws`.
pub mod Completion
pub mod Exchange
use slicksocket.Base.{
  map, ℕ, ◌+◌, ◌≡◌, refl, Bool, true, false, not, ◌&&◌, ◌||◌, Option, none, some, List, [], ◌∷◌,
  ◌++◌, ltb, ◌==◌, if◌then◌else◌, length,
}
use slicksocket.Url.{to_string}
use slicksocket.Request.{
  RequestInfo, HttpRequest, HttpInfo, Event, Reason, Answer, dummy, minus_one, zero, aborts, Action,
  add_http_header, body_pending, callback_on_writable, cancel_service, lws_write, Reply,
  client_connection_error, client_append_handshake_header, client_http_writeable,
  established_client_http, receive_client_http, receive_client_http_read, completed_client_http,
  closed_client_http, wsi_destroy,
}

-- The texts of failures.
abbrev pub error_text : List ℕ
error_text =
    32 ∷ 101 ∷ 114 ∷ 114 ∷ 111 ∷ 114 ∷ 32 ∷ 111 ∷ 99 ∷ 99 ∷ 117 ∷ 114 ∷ 114 ∷ 101 ∷ 100 ∷ 46 ∷ 32
    ∷ []

abbrev pub user_agent_text : List ℕ
user_agent_text =
    32 ∷ 102 ∷ 97 ∷ 105 ∷ 108 ∷ 101 ∷ 100 ∷ 32 ∷ 116 ∷ 111 ∷ 32 ∷ 97 ∷ 100 ∷ 100 ∷ 32 ∷ 85 ∷ 115
    ∷ 101 ∷ 114 ∷ 45 ∷ 65 ∷ 103 ∷ 101 ∷ 110 ∷ 116 ∷ 32 ∷ 104 ∷ 101 ∷ 97 ∷ 100 ∷ 101 ∷ 114 ∷ []

abbrev pub header_text : List ℕ
header_text =
    32 ∷ 102 ∷ 97 ∷ 105 ∷ 108 ∷ 101 ∷ 100 ∷ 32 ∷ 116 ∷ 111 ∷ 32 ∷ 97 ∷ 100 ∷ 100 ∷ 32 ∷ 104 ∷ 101
    ∷ 97 ∷ 100 ∷ 101 ∷ 114 ∷ 32 ∷ []

abbrev pub type_text : List ℕ
type_text =
    32 ∷ 102 ∷ 97 ∷ 105 ∷ 108 ∷ 101 ∷ 100 ∷ 32 ∷ 116 ∷ 111 ∷ 32 ∷ 97 ∷ 100 ∷ 100 ∷ 32 ∷ 104 ∷ 101
    ∷ 97 ∷ 100 ∷ 101 ∷ 114 ∷ 32 ∷ 67 ∷ 111 ∷ 110 ∷ 116 ∷ 101 ∷ 110 ∷ 116 ∷ 45 ∷ 84 ∷ 121 ∷ 112 ∷ 101
    ∷ 58 ∷ []

abbrev pub length_text : List ℕ
length_text =
    32 ∷ 102 ∷ 97 ∷ 105 ∷ 108 ∷ 101 ∷ 100 ∷ 32 ∷ 116 ∷ 111 ∷ 32 ∷ 97 ∷ 100 ∷ 100 ∷ 32 ∷ 104 ∷ 101
    ∷ 97 ∷ 100 ∷ 101 ∷ 114 ∷ 32 ∷ 67 ∷ 111 ∷ 110 ∷ 116 ∷ 101 ∷ 110 ∷ 116 ∷ 45 ∷ 76 ∷ 101 ∷ 110 ∷ 103
    ∷ 116 ∷ 104 ∷ 58 ∷ []

abbrev pub exceeds_text : List ℕ
exceeds_text =
    32 ∷ 98 ∷ 111 ∷ 100 ∷ 121 ∷ 32 ∷ 101 ∷ 120 ∷ 99 ∷ 101 ∷ 101 ∷ 100 ∷ 115 ∷ 32 ∷ 98 ∷ 117 ∷ 102
    ∷ 102 ∷ 101 ∷ 114 ∷ 32 ∷ 115 ∷ 105 ∷ 122 ∷ 101 ∷ []

abbrev pub write_text : List ℕ
write_text =
    32 ∷ 102 ∷ 97 ∷ 105 ∷ 108 ∷ 101 ∷ 100 ∷ 32 ∷ 116 ∷ 111 ∷ 32 ∷ 119 ∷ 114 ∷ 105 ∷ 116 ∷ 101 ∷ 32
    ∷ 98 ∷ 111 ∷ 100 ∷ 121 ∷ []

-- A header with the text of a failure to add it.
pub record Header : Type 0 where
  pub name : List ℕ
  pub value : List ℕ
  pub failure : List ℕ

-- Whether a header cannot be added behind others, what `lws_write` returns, the status and the
-- content type of the response, `lws_hdr_total_length` of that in the header, and whether
-- `lws_http_client_read` fails. In a debug build `assert` is on.
pub record Lws : Type 0 where
  pub header_fails : List Header → Header → Bool
  pub written : List ℕ → ℕ
  pub status : ℕ
  pub content_type : List ℕ
  pub content_type_length : ℕ
  pub read_fails : Bool
  pub debug : Bool

abbrev pub user_agent : Header
user_agent = record {
  name = 85 ∷ 115 ∷ 101 ∷ 114 ∷ 45 ∷ 65 ∷ 103 ∷ 101 ∷ 110 ∷ 116 ∷ [];
  value = 108 ∷ 105 ∷ 98 ∷ 119 ∷ 101 ∷ 98 ∷ 115 ∷ 111 ∷ 99 ∷ 107 ∷ 101 ∷ 116 ∷ [];
  failure = user_agent_text;
}

abbrev pub content_type_name : List ℕ
content_type_name = 99 ∷ 111 ∷ 110 ∷ 116 ∷ 101 ∷ 110 ∷ 116 ∷ 45 ∷ 116 ∷ 121 ∷ 112 ∷ 101 ∷ []

abbrev pub content_length_name : List ℕ
content_length_name =
    99 ∷ 111 ∷ 110 ∷ 116 ∷ 101 ∷ 110 ∷ 116 ∷ 45 ∷ 108 ∷ 101 ∷ 110 ∷ 103 ∷ 116 ∷ 104 ∷ []

abbrev pub no_text : List ℕ → Bool
no_text [] = true
no_text (x ∷ xs) = false

abbrev pub append_response : RequestInfo → List ℕ → RequestInfo
append_response r text = record r {
  http_info = record r.http_info { response = r.http_info.response ++ text };
}

abbrev pub complete : RequestInfo → RequestInfo
complete r = record r { http_info = record r.http_info { completed = true } }

-- `wsi` is null and the request is over.
abbrev pub over : RequestInfo → RequestInfo
over r = complete (record r { wsi = none })

-- A failure: a message in the response, behind the path, and -1.
pub fail : RequestInfo → List ℕ → List Action → Reply RequestInfo
fail r text acts = record {
  request = over (append_response r (r.path ++ text));
  answer = minus_one;
  actions = acts;
}

abbrev pub reply : RequestInfo → List Action → Reply RequestInfo
reply r acts = record { request = r; answer = dummy; actions = acts }

abbrev pub own_header : List ℕ × List ℕ → Header
own_header (k, v) = record { name = k; value = v; failure = header_text ++ k ++ 58 ∷ 32 ∷ v }

-- The headers of a request in the order in which they are added: its own, those of its body.
pub all_headers : HttpRequest → List Header
all_headers q =
    map own_header q.headers
    ++ (if no_text q.content_type
        then []
        else record {
          name = content_type_name;
          value = q.content_type;
          failure = type_text ++ q.content_type;
        }
          ∷ [])
    ++ (if no_text q.body
        then []
        else record {
          name = content_length_name;
          value = to_string (length q.body);
          failure = length_text ++ to_string (length q.body);
        }
          ∷ [])

-- Adds headers behind those of `done`, and stops at the first that cannot be added.
pub add_all : Lws → RequestInfo → List Header → List Header → List Action → Reply RequestInfo
unfolding fail
add_all lws r done [] last = reply r last
add_all lws r done (h ∷ hs) last =
    let rest = add_all lws r (done ++ h ∷ []) hs last in
    if lws.header_fails done h
    then fail r h.failure []
    else record rest { actions = add_http_header h.name h.value ∷ rest.actions }

-- LWS_CALLBACK_CLIENT_APPEND_HANDSHAKE_HEADER, without or with a request of the user.
pub append_headers : Lws → RequestInfo → Option HttpRequest → Reply RequestInfo
unfolding add_all all_headers
append_headers lws r none = add_all lws r [] (user_agent ∷ []) []
append_headers lws r (some q) =
    add_all lws r [] (user_agent ∷ all_headers q)
      (if no_text q.body then [] else body_pending true ∷ callback_on_writable ∷ [])

-- LWS_CALLBACK_CLIENT_HTTP_WRITEABLE. The buffer takes 8192 characters, one of them the end of the
-- text; the body has no NUL inside.
pub write_body : Lws → RequestInfo → Option HttpRequest → Reply RequestInfo
unfolding fail
write_body lws r none = reply r []
write_body lws r (some q) =
    if ltb 8192 (length q.body + 1)
    then fail r exceeds_text []
    else if not (lws.written q.body == length q.body)
    then fail r write_text (body_pending false ∷ lws_write q.body ∷ [])
    else reply r (body_pending false ∷ lws_write q.body ∷ [])

-- The assertion on the array of 512 characters that takes the content type.
abbrev pub fits_content_type : Lws → Bool
fits_content_type lws = not lws.debug || ltb lws.content_type_length 512

abbrev pub with_status : RequestInfo → ℕ → RequestInfo
with_status r n = record r { http_info = record r.http_info { status = n } }

-- The cases. `response.clear()` leaves the text as it is.
pub on_reason : Lws → RequestInfo → Event → Reason → Reply RequestInfo
unfolding append_headers write_body
on_reason lws r ev client_connection_error =
    reply
      (over (
        append_response r (
          r.path
          ++ error_text
          ++ (elim ev.input [ none ↦ [] | some text ↦ if ev.len == 0 then [] else text ]))))
      []
on_reason lws r ev client_append_handshake_header = append_headers lws r r.http_info.request
on_reason lws r ev client_http_writeable = write_body lws r r.http_info.request
on_reason lws r ev established_client_http =
    if fits_content_type lws
    then reply
        (record r {
          http_info = record r.http_info { status = lws.status; content_type = lws.content_type };
        })
        []
    else record { request = with_status r lws.status; answer = aborts; actions = [] }
on_reason lws r ev receive_client_http =
    if lws.read_fails
    then record { request = complete r; answer = minus_one; actions = [] }
    else record { request = r; answer = zero; actions = [] }
on_reason lws r ev receive_client_http_read = record {
  request = append_response r (elim ev.input [ none ↦ [] | some text ↦ text ]);
  answer = zero;
  actions = [];
}
on_reason lws r ev completed_client_http = reply (over r) (cancel_service ∷ [])
on_reason lws r ev closed_client_http = reply (over r) (cancel_service ∷ [])
on_reason lws r ev wsi_destroy = reply (over r) []
on_reason lws r ev _ = reply r []

-- `http_callback`, for a `wsi` that has user data.
pub http_callback : Lws → RequestInfo → Event → Reply RequestInfo
unfolding on_reason
http_callback lws r ev = on_reason lws r ev ev.reason
