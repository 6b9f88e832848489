-- ===== src/Service/Sweep.antt =====
-- The end of a round of `serve`, against what each request needs by itself.
use mathlib.Core.List.{append_assoc}
use slicksocket.Base.{
  none, some, ℕ, ◌≡◌, refl, ap, ap₂, ◌∙◌, Bool, true, false, List, [], ◌∷◌, ◌++◌, if◌then◌else◌,
  ◌==◌, ==_iff, Bool-cases, inl, inr, Option, not, ◌&&◌, ◌||◌, sym, arith,
}
use slicksocket.Pool.{Pool, release_obj}
use slicksocket.Request.{is_http, RequestInfo, HttpResponse, Action, on_response}
use slicksocket.Service.{
  Infos, put, Service, Fate, keeps, drops, releases, answers, fate, complete, visit, sweep,
  release_request,
}

-- What a request needs, by its own members alone: an HTTP request without a connection is over, and
-- is answered and given back if it has a callback; another request without a connection is given
-- back when its client has stopped.
abbrev pub is_some : Option ℕ → Bool
is_some none = false
is_some (some c) = true

abbrev pub answer : Option ℕ → HttpResponse → List Action
answer none response = []
answer (some c) response = on_response c response ∷ []

abbrev pub calls : RequestInfo → List Action
calls r =
    if not (is_some r.wsi) && is_http r.type
    then answer r.http_info.callback (record {
      status = r.http_info.status;
      content_type = r.http_info.content_type;
      response_text = r.http_info.response;
    })
    else []

abbrev pub stays : RequestInfo → Bool
stays r = is_some r.wsi || (not (is_http r.type) && not r.socket_info.shutdown)

abbrev pub is_released : RequestInfo → Bool
is_released r =
    not (is_some r.wsi)
    && (if is_http r.type then is_some r.http_info.callback else r.socket_info.shutdown)

-- The same of a fate.
abbrev calls_of : Fate → List Action
calls_of (answers c response) = on_response c response ∷ []
calls_of _ = []

abbrev keeps_it : Fate → Bool
keeps_it keeps = true
keeps_it _ = false

abbrev gives_back : Fate → Bool
gives_back releases = true
gives_back (answers c response) = true
gives_back _ = false

abbrev pub all_calls : Infos → List ℕ → List Action
all_calls f [] = []
all_calls f (a ∷ l) = calls (f a) ++ all_calls f l

abbrev pub kept : Infos → List ℕ → List ℕ
kept f [] = []
kept f (a ∷ l) = if stays (f a) then a ∷ kept f l else kept f l

abbrev pub release_all : Infos → List ℕ → Pool → Pool
release_all f [] p = p
release_all f (a ∷ l) p = release_all f l (if is_released (f a) then release_obj p a else p)

fate-complete : (r : RequestInfo) → fate (complete r) ≡ fate r
unfolding fate complete
fate-complete r = refl

-- To store a request with the fate it had changes the fate of none.
abbrev pub SameFate : Infos → Infos → Type 0
SameFate f g = (a : ℕ) → fate (f a) ≡ fate (g a)

put-SameFate : (f : Infos) (a : ℕ) → SameFate (put f a (complete (f a))) f
put-SameFate f a b = elim (Bool-cases (a == b)) [
  | inl e ↦ rw e (fate-complete (f a) ∙ ap (λ c. fate (f c)) ((==_iff a b).0 e))
  | inr e ↦ rw e refl
]

pub visit-SameFate : (t : Fate) (a : ℕ) (s : Service) → SameFate (visit t a s).0.infos s.infos
unfolding visit release_request
visit-SameFate keeps a s = λ b. refl
visit-SameFate drops a s = put-SameFate s.infos a
visit-SameFate releases a s = λ b. refl
visit-SameFate (answers c response) a s = put-SameFate s.infos a

visit-calls_of : (t : Fate) (a : ℕ) (s : Service) → (visit t a s).1 ≡ calls_of t
unfolding visit
visit-calls_of keeps a s = refl
visit-calls_of drops a s = refl
visit-calls_of releases a s = refl
visit-calls_of (answers c response) a s = refl

visit-keeps_it : (t : Fate) (a : ℕ) (s : Service) → (visit t a s).2 ≡ keeps_it t
unfolding visit
visit-keeps_it keeps a s = refl
visit-keeps_it drops a s = refl
visit-keeps_it releases a s = refl
visit-keeps_it (answers c response) a s = refl

visit-pool :
    (t : Fate) (a : ℕ) (s : Service)
    → (visit t a s).0.request_pool
      ≡ (if gives_back t then release_obj s.request_pool a else s.request_pool)
unfolding visit release_request
visit-pool keeps a s = refl
visit-pool drops a s = refl
visit-pool releases a s = refl
visit-pool (answers c response) a s = refl

calls_of-fate : (r : RequestInfo) → calls_of (fate r) ≡ calls r
unfolding fate
calls_of-fate r = ground arith

keeps_it-fate : (r : RequestInfo) → keeps_it (fate r) ≡ stays r
unfolding fate
keeps_it-fate r = ground arith

gives_back-fate : (r : RequestInfo) → gives_back (fate r) ≡ is_released r
unfolding fate
gives_back-fate r = ground arith

module _ (f g : Infos) (same : SameFate f g) where
  calls-SameFate : (a : ℕ) → calls (f a) ≡ calls (g a)
  calls-SameFate a = sym (calls_of-fate (f a)) ∙ ap calls_of (same a) ∙ calls_of-fate (g a)

  stays-SameFate : (a : ℕ) → stays (f a) ≡ stays (g a)
  stays-SameFate a = sym (keeps_it-fate (f a)) ∙ ap keeps_it (same a) ∙ keeps_it-fate (g a)

  is_released-SameFate : (a : ℕ) → is_released (f a) ≡ is_released (g a)
  is_released-SameFate a =
      sym (gives_back-fate (f a)) ∙ ap gives_back (same a) ∙ gives_back-fate (g a)

  all_calls-SameFate : (l : List ℕ) → all_calls f l ≡ all_calls g l
  all_calls-SameFate [] = refl
  all_calls-SameFate (a ∷ l) = ap₂ ◌++◌ (calls-SameFate a) (all_calls-SameFate l)

  kept-SameFate : (l : List ℕ) → kept f l ≡ kept g l
  kept-SameFate [] = refl
  kept-SameFate (a ∷ l) = ap₂ (λ t k. if t then a ∷ k else k) (stays-SameFate a) (kept-SameFate l)

  release_all-SameFate : (l : List ℕ) (p : Pool) → release_all f l p ≡ release_all g l p
  release_all-SameFate [] p = refl
  release_all-SameFate (a ∷ l) p =
      release_all-SameFate l (if is_released (f a) then release_obj p a else p)
      ∙ ap (λ t. release_all g l (if t then release_obj p a else p)) (is_released-SameFate a)

-- The loop at the end of a round over any set, against the members of each request: in its order it
-- calls the functions of the users whose HTTP requests have no connection any more, once for each
-- and with the response; it keeps the requests that have a connection, and those that are not HTTP
-- and whose client has not stopped; and it gives to the pool, of those without a connection, the HTTP
-- requests with a callback and the others whose client has stopped.
pub sweep-eq :
    (l : List ℕ) (s : Service)
    → ((sweep l s).1 ≡ all_calls s.infos l)
      × ((sweep l s).2 ≡ kept s.infos l)
      × ((sweep l s).0.request_pool ≡ release_all s.infos l s.request_pool)
unfolding sweep
sweep-eq [] s = (refl, refl, refl)
sweep-eq (a ∷ l) s =
    let t = fate (s.infos a) in
    let f = (visit t a s).0.infos in
    let g = s.infos in
    let same = visit-SameFate t a s in
    let (more, left, pool) = sweep-eq l (visit t a s).0 in
    (
      ap₂ ◌++◌ (visit-calls_of t a s ∙ calls_of-fate (g a)) (more ∙ all_calls-SameFate f g same l),
      ap₂ (λ b k. if b then a ∷ k else k) (visit-keeps_it t a s ∙ keeps_it-fate (g a))
          (left ∙ kept-SameFate f g same l),
      pool
          ∙ release_all-SameFate f g same l (visit t a s).0.request_pool
          ∙ ap (release_all s.infos l) (visit-pool t a s)
          ∙ ap (λ b. release_all g l (if b then release_obj s.request_pool a else s.request_pool))
              (gives_back-fate (g a)),
    )

all_calls-append :
    (f : Infos) (l m : List ℕ) → all_calls f (l ++ m) ≡ all_calls f l ++ all_calls f m
all_calls-append f [] m = refl
all_calls-append f (a ∷ l) m =
    ap (λ k. calls (f a) ++ k) (all_calls-append f l m)
    ∙ sym (append_assoc (calls (f a)) (all_calls f l) (all_calls f m))

kept-append : (f : Infos) (l m : List ℕ) → kept f (l ++ m) ≡ kept f l ++ kept f m
kept-append f [] m = refl
kept-append f (a ∷ l) m = elim (Bool-cases (stays (f a))) [
  | inl e ↦ rw e (ap (λ k. a ∷ k) (kept-append f l m))
  | inr e ↦ rw e (kept-append f l m)
]

-- An HTTP request that is over, and has a callback, among others.
pub sweep-answers :
    (s : Service) (before after : List ℕ) (a : ℕ) {c : ℕ} {response : HttpResponse}
    → calls (s.infos a) ≡ on_response c response ∷ []
    → stays (s.infos a) ≡ false
    → let out = sweep (before ++ a ∷ after) s in
      (out.1 ≡ all_calls s.infos before ++ on_response c response ∷ all_calls s.infos after)
      × (out.2 ≡ kept s.infos before ++ kept s.infos after)
sweep-answers s before after a called over =
    let (calls, left, pool) = sweep-eq (before ++ a ∷ after) s in
    (
      calls
          ∙ all_calls-append s.infos before (a ∷ after)
          ∙ ap (λ l. all_calls s.infos before ++ (l ++ all_calls s.infos after)) called,
      left
          ∙ kept-append s.infos before (a ∷ after)
          ∙ ap
              (λ b.
                kept s.infos before ++ (if b then a ∷ kept s.infos after else kept s.infos after))
              over,
    )
