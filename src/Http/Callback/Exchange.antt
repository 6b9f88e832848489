-- ===== src/Http/Callback/Exchange.antt =====
-- A whole HTTP exchange: the answer of the server in any number of pieces, from the first callback
-- for it to the call of the user's function by the service.
use mathlib.Core.List.{append-nil, append_assoc}
use slicksocket.Base.{
  ℕ, ◌≡◌, refl, sym, ap, ◌∙◌, Bool, true, false, Option, none, some, List, [], ◌∷◌, ◌++◌, ==_iff,
  if◌then◌else◌,
}
use slicksocket.Request.{
  RequestInfo, Event, Reason, Reply, Answer, dummy, minus_one, zero, one, aborts, is_http,
  client_connection_error, client_append_handshake_header, client_http_writeable,
  established_client_http, receive_client_http, receive_client_http_read, completed_client_http,
  closed_client_http, wsi_destroy, on_response,
}
use slicksocket.Service.{Service, put, sweep}
use slicksocket.Service.Sweep.{calls, stays, all_calls, kept, sweep-answers}
use slicksocket.Http.Callback.{
  Lws, over, append_response, on_reason, http_callback, fits_content_type,
}

-- Whether libwebsockets goes on with the connection.
abbrev pub goes_on : Answer → Bool
goes_on dummy = true
goes_on zero = true
goes_on one = false
goes_on minus_one = false
goes_on aborts = false

abbrev pub follow : Reply RequestInfo → (RequestInfo → Option RequestInfo) → Option RequestInfo
follow out k = let rest = k out.request in if goes_on out.answer then rest else none

-- The callbacks of one request in their order; `none` when one of them gives the connection up.
pub run : Lws → List Event → RequestInfo → Option RequestInfo
unfolding http_callback
run lws [] r = some r
run lws (e ∷ es) r = follow (http_callback lws r e) (run lws es)

-- Reasons that the callback does not name.
abbrev pub IsOther : Reason → Type 0
IsOther client_connection_error = ⊥
IsOther client_append_handshake_header = ⊥
IsOther client_http_writeable = ⊥
IsOther established_client_http = ⊥
IsOther receive_client_http = ⊥
IsOther receive_client_http_read = ⊥
IsOther completed_client_http = ⊥
IsOther closed_client_http = ⊥
IsOther wsi_destroy = ⊥
IsOther _ = Unit {0}

-- The callbacks for the body of an answer, and the text of its pieces in their order: there is
-- something to read, a piece of it has been read, and any that the callback does not name.
pub data Body : List Event → List ℕ → Type 0 where
  no_more : Body [] []
  reads :
      {es : List Event} {text : List ℕ} (e : Event)
      → e.reason ≡ receive_client_http
      → Body es text
      → Body (e ∷ es) text
  arrives :
      {es : List Event} {text : List ℕ} (e : Event) (piece : List ℕ)
      → e.reason ≡ receive_client_http_read
      → e.input ≡ some piece
      → Body es text
      → Body (e ∷ es) (piece ++ text)
  passes :
      {es : List Event} {text : List ℕ} (e : Event)
      → IsOther e.reason
      → Body es text
      → Body (e ∷ es) text

-- The callbacks for the end of a request.
pub data IsEnd : Reason → Type 0 where
  completes : IsEnd completed_client_http
  closes : IsEnd closed_client_http
  destroys : IsEnd wsi_destroy

abbrev pub AllEnd : List Event → Type 0
AllEnd [] = Unit {0}
AllEnd (e ∷ es) = IsEnd e.reason × AllEnd es

module _ (lws : Lws) where
  other-follow :
      (r : RequestInfo) (e : Event) (reason : Reason) (k : RequestInfo → Option RequestInfo)
      → IsOther reason
      → follow (on_reason lws r e reason) k ≡ k r
  unfolding on_reason
  other-follow r e client_connection_error k o = absurd o
  other-follow r e client_append_handshake_header k o = absurd o
  other-follow r e client_http_writeable k o = absurd o
  other-follow r e established_client_http k o = absurd o
  other-follow r e receive_client_http k o = absurd o
  other-follow r e receive_client_http_read k o = absurd o
  other-follow r e completed_client_http k o = absurd o
  other-follow r e closed_client_http k o = absurd o
  other-follow r e wsi_destroy k o = absurd o
  other-follow r e _ k o = refl

  end-follow :
      (r : RequestInfo) (e : Event) (reason : Reason) (k : RequestInfo → Option RequestInfo)
      → IsEnd reason
      → follow (on_reason lws r e reason) k ≡ k (over r)
  unfolding on_reason
  end-follow r e reason k completes = refl
  end-follow r e reason k closes = refl
  end-follow r e reason k destroys = refl

  read-follow :
      (r : RequestInfo) (e : Event) (k : RequestInfo → Option RequestInfo)
      → lws.read_fails ≡ false
      → follow (on_reason lws r e receive_client_http) k ≡ k r
  unfolding on_reason
  read-follow r e k succeeds = rw succeeds refl

  opening-follow :
      (r : RequestInfo) (e : Event) (k : RequestInfo → Option RequestInfo)
      → fits_content_type lws ≡ true
      → follow (on_reason lws r e established_client_http) k
        ≡ k (record r {
          http_info = record r.http_info { status = lws.status; content_type = lws.content_type };
        })
  unfolding on_reason
  opening-follow r e k fits = rw fits refl

  -- The callback of a known reason at the head of a run.
  run-reason :
      (r : RequestInfo) (e : Event) (es : List Event) {reason : Reason}
      → e.reason ≡ reason
      → run lws (e ∷ es) r ≡ follow (on_reason lws r e reason) (run lws es)
  unfolding run http_callback
  run-reason r e es is = ap (λ reason. follow (on_reason lws r e reason) (run lws es)) is

  run-end :
      (r : RequestInfo) (e : Event) (es : List Event)
      → AllEnd (e ∷ es)
      → run lws (e ∷ es) r ≡ some (over r)
  unfolding run
  run-end r e [] (ends, rest) = run-reason r e [] refl ∙ end-follow r e e.reason (run lws []) ends
  run-end r e (f ∷ es) (ends, rest) =
      run-reason r e (f ∷ es) refl
      ∙ end-follow r e e.reason (run lws (f ∷ es)) ends
      ∙ run-end (over r) f es rest

  run-Body :
      {es : List Event} {text : List ℕ} (r : RequestInfo) (e : Event) (end : List Event)
      → lws.read_fails ≡ false
      → Body es text
      → AllEnd (e ∷ end)
      → run lws (es ++ e ∷ end) r ≡ some (over (append_response r text))
  unfolding on_reason
  run-Body r e end succeeds no_more ends =
      run-end r e end ends
      ∙ ap (λ t. some (over (record r { http_info = record r.http_info { response = t } })))
          (sym (append-nil r.http_info.response))
  run-Body r e end succeeds (reads {es = es} f is body) ends =
      run-reason r f (es ++ e ∷ end) is
      ∙ read-follow r f (run lws (es ++ e ∷ end)) succeeds
      ∙ run-Body r e end succeeds body ends
  run-Body r e end succeeds (arrives {es = es} {text = text} f piece is has body) ends =
      run-reason r f (es ++ e ∷ end) is
      ∙ ap (λ o. run lws (es ++ e ∷ end) (append_response r (elim o [ none ↦ [] | some t ↦ t ])))
          has
      ∙ run-Body (append_response r piece) e end succeeds body ends
      ∙ ap (λ t. some (over (record r { http_info = record r.http_info { response = t } })))
          (append_assoc r.http_info.response piece text)
  run-Body r e end succeeds (passes {es = es} f other body) ends =
      run-reason r f (es ++ e ∷ end) refl
      ∙ other-follow r f f.reason (run lws (es ++ e ∷ end)) other
      ∙ run-Body r e end succeeds body ends

put-same : (f : ℕ → RequestInfo) (a : ℕ) (r : RequestInfo) → put f a r a ≡ r
put-same f a r = ap (λ b. if b then r else f a) ((==_iff a a).1 refl)

-- What libwebsockets leaves of a request that it has answered.
answered : Lws → RequestInfo → List ℕ → RequestInfo
answered lws r text = over (record r {
  http_info = record r.http_info {
    status = lws.status;
    content_type = lws.content_type;
    response = r.http_info.response ++ text;
  };
})

-- A whole HTTP exchange. When the callbacks for a request with a callback are those of an answer
-- whose content type fits in its array, then any number of "there is something to read", where the
-- reading succeeds, of pieces that have been read and of callbacks with reasons that the code does
-- not name, and at last one or more of completed, closed and destroyed: none of them gives the
-- connection up, the request is completed, and the loop of the service, over any set with the request,
-- calls the user's function for it in its place with the status, the content type and the text of
-- all the pieces in their order (behind what the response held before), and takes it out of the set.
pub exchange-answers :
    (lws : Lws) (s : Service) (a : ℕ) (before after : List ℕ) (opening last : Event)
    (es more : List Event) {text : List ℕ} {c : ℕ}
    → is_http (s.infos a).type ≡ true
    → (s.infos a).http_info.callback ≡ some c
    → fits_content_type lws ≡ true
    → lws.read_fails ≡ false
    → opening.reason ≡ established_client_http
    → Body es text
    → AllEnd (last ∷ more)
    → (r : RequestInfo) × (run lws (opening ∷ es ++ last ∷ more) (s.infos a) ≡ some r)
      × (r.http_info.completed ≡ true)
      × (let infos = put s.infos a r in
          let out = sweep (before ++ a ∷ after) (record s { infos = infos }) in
          (out.1
            ≡ all_calls infos before
              ++ on_response c (record {
                status = lws.status;
                content_type = lws.content_type;
                response_text = (s.infos a).http_info.response ++ text;
              })
                ∷ all_calls infos after)
          × (out.2 ≡ kept infos before ++ kept infos after))
unfolding answered
exchange-answers lws s a before after opening last es more {text} typed called fits succeeds opens
      body ends =
    let r = answered lws (s.infos a) text in
    let same = put-same s.infos a r in
    (
      r,
      run-reason lws (s.infos a) opening (es ++ last ∷ more) opens
          ∙ opening-follow lws (s.infos a) opening (run lws (es ++ last ∷ more)) fits
          ∙ run-Body lws _ last more succeeds body ends,
      refl,
      sweep-answers (record s { infos = put s.infos a r }) before after a
          (ap calls same ∙ rw (typed, called) refl) (ap stays same ∙ rw typed refl),
    )
