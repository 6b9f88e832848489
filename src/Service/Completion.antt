-- ===== src/Service/Completion.antt =====
-- What the end of a round of `socket_service::serve` writes into the HTTP requests.
use slicksocket.Base.{
  ℕ, ◌≡◌, refl, subst, ap, ◌∙◌, Bool, true, false, Option, none, some, List, [], ◌∷◌, ◌⊎◌, inl, inr,
  arith, if◌then◌else◌, ◌==◌, ==_iff, Bool-cases,
}
use slicksocket.Request.{RequestInfo, HttpResponse, ConnectInfo, is_http}
use slicksocket.Service.{
  Infos, put, Service, Fate, keeps, drops, releases, answers, fate, complete, visit, sweep,
  release_request, response_of, take_request, finish_round, serve_round,
}
use slicksocket.Service.Sweep.{visit-SameFate}

abbrev pub IsIn : ℕ → List ℕ → Type 0
IsIn a [] = ⊥
IsIn a (b ∷ l) = (b ≡ a) ⊎ IsIn a l

abbrev pub is_done : Infos → ℕ → Bool
is_done f a = (f a).http_info.completed

abbrev pub text : Infos → ℕ → HttpResponse
text f a = response_of (f a).http_info

put-same : (f : Infos) (a b : ℕ) (r : RequestInfo) → (b == a) ≡ true → put f b r a ≡ r
put-same f a b r e = rw e refl

put-other : (f : Infos) (a b : ℕ) (r : RequestInfo) → (b == a) ≡ false → put f b r a ≡ f a
put-other f a b r e = rw e refl

-- To complete a request leaves the responses as they are, and those completed that were.
put-text : (f : Infos) (a b : ℕ) → text (put f b (complete (f b))) a ≡ text f a
unfolding complete
put-text f a b = elim (Bool-cases (b == a)) [
  | inl e ↦ rw e (ap (text f) ((==_iff b a).0 e))
  | inr e ↦ rw e refl
]

put-done : (f : Infos) (a b : ℕ) → is_done f a ≡ true → is_done (put f b (complete (f b))) a ≡ true
unfolding complete
put-done f a b was = elim (Bool-cases (b == a)) [
  | inl e ↦ ap (λ r. r.http_info.completed) (put-same f a b (complete (f b)) e)
  | inr e ↦ ap (λ r. r.http_info.completed) (put-other f a b (complete (f b)) e) ∙ was
]

visit-text : (t : Fate) (a b : ℕ) (s : Service) → text (visit t b s).0.infos a ≡ text s.infos a
unfolding visit release_request
visit-text keeps a b s = refl
visit-text drops a b s = put-text s.infos a b
visit-text releases a b s = refl
visit-text (answers c response) a b s = put-text s.infos a b

visit-done :
    (t : Fate) (a b : ℕ) (s : Service)
    → is_done s.infos a ≡ true
    → is_done (visit t b s).0.infos a ≡ true
unfolding visit release_request
visit-done keeps a b s was = was
visit-done drops a b s was = put-done s.infos a b was
visit-done releases a b s was = was
visit-done (answers c response) a b s was = put-done s.infos a b was

sweep-text : (l : List ℕ) (a : ℕ) (s : Service) → text (sweep l s).0.infos a ≡ text s.infos a
unfolding sweep
sweep-text [] a s = refl
sweep-text (b ∷ l) a s =
    let t = fate (s.infos b) in sweep-text l a (visit t b s).0 ∙ visit-text t a b s

sweep-done :
    (l : List ℕ) (a : ℕ) (s : Service)
    → is_done s.infos a ≡ true
    → is_done (sweep l s).0.infos a ≡ true
unfolding sweep
sweep-done [] a s was = was
sweep-done (b ∷ l) a s was =
    let t = fate (s.infos b) in sweep-done l a (visit t b s).0 (visit-done t a b s was)

-- Whether the end of a round completes the request.
abbrev is_over : Fate → Bool
is_over drops = true
is_over (answers c response) = true
is_over _ = false

visit-over :
    (t : Fate) (a : ℕ) (s : Service) → is_over t ≡ true → is_done (visit t a s).0.infos a ≡ true
unfolding visit complete release_request
visit-over keeps a s over = absurd (ground arith)
visit-over releases a s over = absurd (ground arith)
visit-over drops a s over =
    ap (λ r. r.http_info.completed)
      (put-same s.infos a a (complete (s.infos a)) ((==_iff a a).1 refl))
visit-over (answers c response) a s over =
    ap (λ r. r.http_info.completed)
      (put-same s.infos a a (complete (s.infos a)) ((==_iff a a).1 refl))

sweep-over :
    (l : List ℕ) (a : ℕ) (s : Service)
    → IsIn a l
    → is_over (fate (s.infos a)) ≡ true
    → is_done (sweep l s).0.infos a ≡ true
unfolding sweep
sweep-over [] a s within over = elim within [ ]
sweep-over (b ∷ l) a s (inl same) over =
    let t = fate (s.infos b) in
    sweep-done l a (visit t b s).0 (
      subst (λ c. is_done (visit t b s).0.infos c ≡ true) same
        (visit-over t b s (ap (λ c. is_over (fate (s.infos c))) same ∙ over)))
sweep-over (b ∷ l) a s (inr behind) over =
    let t = fate (s.infos b) in
    sweep-over l a (visit t b s).0 behind (ap is_over (visit-SameFate t b s a) ∙ over)

fate-over : (r : RequestInfo) → r.wsi ≡ none → is_http r.type ≡ true → is_over (fate r) ≡ true
unfolding fate
fate-over r gone typed =
    ap (λ o. is_over (elim o [ some w ↦ keeps | none ↦ open_fate ])) gone
    ∙ rw typed (over r.http_info.callback)
  where
    over :
        (o : Option ℕ)
        → is_over (elim o [ none ↦ drops | some d ↦ answers d (response_of r.http_info) ]) ≡ true
    over none = refl
    over (some d) = refl

    open_fate : Fate
    open_fate =
        if is_http r.type
        then elim r.http_info.callback [
          | none ↦ drops
          | some d ↦ answers d (response_of r.http_info)
        ]
        else if r.socket_info.shutdown
        then releases
        else keeps

-- The round of a request that is in the set and whose connection is gone after `lws_service`.
finish_round-done :
    (lws_service : Infos → Infos) (s : Service) (a : ℕ)
    → IsIn a s.requests
    → (lws_service s.infos a).wsi ≡ none
    → is_http (lws_service s.infos a).type ≡ true
    → let out = (finish_round lws_service s s.requests).0 in
      (is_done out.infos a ≡ true) × (text out.infos a ≡ text (lws_service s.infos) a)
unfolding finish_round
finish_round-done lws_service s a within gone typed = go s.requests within
  where
    begun : Service
    begun = record s { infos = lws_service s.infos }

    go :
        (l : List ℕ)
        → IsIn a l
        → let out = (finish_round lws_service s l).0 in
          (is_done out.infos a ≡ true) × (text out.infos a ≡ text (lws_service s.infos) a)
    go [] within = elim within [ ]
    go (b ∷ l) within = (
      sweep-over (b ∷ l) a begun within (fate-over (lws_service s.infos a) gone typed),
      sweep-text (b ∷ l) a begun,
    )

pub serve_round-done :
    (connect : ConnectInfo → Infos → Infos) (lws_service : Infos → Infos) (s : Service) (a : ℕ)
    → IsIn a (take_request connect s).0.requests
    → (lws_service (take_request connect s).0.infos a).wsi ≡ none
    → is_http (lws_service (take_request connect s).0.infos a).type ≡ true
    → let out = (serve_round connect lws_service s).0 in
      (is_done out.infos a ≡ true)
      × (text out.infos a ≡ text (lws_service (take_request connect s).0.infos) a)
unfolding serve_round
serve_round-done connect lws_service s a =
    finish_round-done lws_service (take_request connect s).0 a
