-- ===== src/Service/Rounds.antt =====
-- What a round of `socket_service::serve` does to the cursor, and the requests that it asks
-- libwebsockets to connect.
use slicksocket.Base.{
  ℕ, ◌+◌, ◌^◌, ◌<◌, ◌≡◌, refl, ap, ap₂, ◌∙◌, Option, none, some, List, [], ◌∷◌, ◌++◌, arith, length,
}
use slicksocket.Request.{ConnectInfo, Action, client_connect}
use slicksocket.Service.{
  Infos, Service, Fate, keeps, drops, releases, answers, accept, accept_next, visit, sweep, fate,
  finish_round, release_request,
}

-- The requests that libwebsockets is asked to connect by the calls.
abbrev pub connections : List Action → List ℕ
connections [] = []
connections (client_connect a cci ∷ l) = a ∷ connections l
connections (_ ∷ l) = connections l

abbrev pub to_list : Option ℕ → List ℕ
to_list none = []
to_list (some a) = a ∷ []

-- The cursor, which only the taking of a request moves.
visit-cursor : (t : Fate) (a : ℕ) (s : Service) → (visit t a s).0.cursor ≡ s.cursor
unfolding visit release_request
visit-cursor keeps a s = refl
visit-cursor drops a s = refl
visit-cursor releases a s = refl
visit-cursor (answers c response) a s = refl

sweep-cursor : (l : List ℕ) (s : Service) → (sweep l s).0.cursor ≡ s.cursor
unfolding sweep
sweep-cursor [] s = refl
sweep-cursor (a ∷ l) s =
    let t = fate (s.infos a) in sweep-cursor l (visit t a s).0 ∙ visit-cursor t a s

pub finish_round-cursor :
    (lws_service : Infos → Infos) (s : Service) (l : List ℕ)
    → (finish_round lws_service s l).0.cursor ≡ s.cursor
unfolding finish_round
finish_round-cursor lws_service s [] = refl
finish_round-cursor lws_service s (a ∷ l) =
    sweep-cursor (a ∷ l) (record s { infos = lws_service s.infos })

pub accept_next-cursor :
    (connect : ConnectInfo → Infos → Infos) (s : Service) (o : Option ℕ)
    → s.cursor + length (to_list o) < 2 ^ 64
    → (accept_next connect s o).0.cursor ≡ s.cursor + length (to_list o)
unfolding accept
accept_next-cursor connect s none h = omega arith
accept_next-cursor connect s (some a) h = omega arith

-- The connections, which only the taking of a request asks for.
pub connections-append : (l m : List Action) → connections (l ++ m) ≡ connections l ++ connections m
connections-append [] m = refl
connections-append (client_connect a cci ∷ l) m = ap (λ k. a ∷ k) (connections-append l m)
connections-append (_ ∷ l) m = connections-append l m

visit-connections : (t : Fate) (a : ℕ) (s : Service) → connections (visit t a s).1 ≡ []
unfolding visit
visit-connections keeps a s = refl
visit-connections drops a s = refl
visit-connections releases a s = refl
visit-connections (answers c response) a s = refl

sweep-connections : (l : List ℕ) (s : Service) → connections (sweep l s).1 ≡ []
unfolding sweep
sweep-connections [] s = refl
sweep-connections (a ∷ l) s =
    let t = fate (s.infos a) in
    connections-append (visit t a s).1 (sweep l (visit t a s).0).1
    ∙ ap₂ ◌++◌ (visit-connections t a s) (sweep-connections l (visit t a s).0)

pub finish_round-connections :
    (lws_service : Infos → Infos) (s : Service) (l : List ℕ)
    → connections (finish_round lws_service s l).1 ≡ []
unfolding finish_round
finish_round-connections lws_service s [] = refl
finish_round-connections lws_service s (a ∷ l) =
    sweep-connections (a ∷ l) (record s { infos = lws_service s.infos })

pub accept_next-connections :
    (connect : ConnectInfo → Infos → Infos) (s : Service) (o : Option ℕ)
    → connections (accept_next connect s o).1 ≡ to_list o
unfolding accept
accept_next-connections connect s none = refl
accept_next-connections connect s (some a) = refl
