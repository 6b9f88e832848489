-- ===== src/Service/Serving.antt =====
-- `socket_service::serve`: its loop over rounds, until the destructor clears `run_`.
use mathlib.Core.List.{append-nil}
use slicksocket.Base.{
  ℕ, suc, ◌+◌, ◌^◌, ◌≤◌, ◌<◌, ◌≡◌, refl, sym, ap, ap₂, ◌∙◌, Bool, true, false, Option, none, some,
  List, [], ◌∷◌, ◌++◌, arith, length, get_elem?, take, drop, drop-get_elem?, ◌==◌, if◌then◌else◌,
  Bool-cases, inl, inr, ◌⊎◌, ==_iff,
}
use slicksocket.Pool.{Pool}
use slicksocket.Ring.{Ring, at, available}
use slicksocket.Ring.Threads.{System, IsSound, Reach, start}
use slicksocket.Ring.Threads.Progress.{Reach-trans}
use slicksocket.Ring.Threads.Sound.{Reach-IsSound, at-eq-log}
use slicksocket.Ring.Threads.Order.{Reach-log, Reach-cursor}
use slicksocket.Request.{ConnectInfo, Action}
use slicksocket.Service.Rounds.{
  connections, to_list, connections-append, finish_round-cursor, accept_next-cursor,
  finish_round-connections, accept_next-connections,
}
use slicksocket.Service.{Infos, Service, next_request, take_request, finish_round, serve_round}

-- What the others do around one round: what the queue and the pool are when it begins, whether the
-- destructor has cleared `run_`, and what libwebsockets makes of the requests.
pub record Round : Type 0 where
  pub queue : Ring ℕ
  pub pool : Pool
  pub stops : Bool
  pub connect : ConnectInfo → Infos → Infos
  pub lws_service : Infos → Infos

abbrev pub arrive : Round → Service → Service
arrive r s = record s {
  request_queue = r.queue;
  request_pool = r.pool;
  run = if r.stops then false else s.run;
}

-- The service at the end, and its calls of libwebsockets and of the users' functions in order.
pub record Served : Type 0 where
  pub service : Service
  pub calls : List Action

abbrev pub round : Round → Service → Service × List Action
round r s = serve_round r.connect r.lws_service s

-- The loop. Its rounds are those of the list, or fewer when `run_` is cleared before.
pub serve : List Round → Service → Served
serve [] s = record { service = s; calls = [] }
serve (r ∷ rs) s =
    let rest = serve rs (round r (arrive r s)).0 in
    if (arrive r s).run
    then record rest { calls = (round r (arrive r s)).1 ++ rest.calls }
    else record { service = arrive r s; calls = [] }

-- The threads that put requests into the queue, in any interleaving with the rounds.
pub data Arrivals : System ℕ → List Round → System ℕ → Type 0 where
  no_more : {u : System ℕ} → Arrivals u [] u
  next :
      {r : Round} {rs : List Round} {u t v : System ℕ}
      → Reach u t
      → r.queue ≡ t.ring
      → Arrivals t rs v
      → Arrivals u (r ∷ rs) v

-- No round finds its position claimed again: the claims are at most a whole queue ahead.
abbrev pub InTime : List Round → Service → Type 0
InTime [] s = Unit {0}
InTime (r ∷ rs) s =
    (r.queue.reserved ≤ s.cursor + r.queue.capacity) × InTime rs (round r (arrive r s)).0

round-cursor :
    (r : Round) (s : Service)
    → s.cursor + length (to_list (next_request s)) < 2 ^ 64
    → (round r s).0.cursor ≡ s.cursor + length (to_list (next_request s))
unfolding serve_round take_request
round-cursor r s h =
    finish_round-cursor r.lws_service (take_request r.connect s).0
      (take_request r.connect s).0.requests
    ∙ accept_next-cursor r.connect s (next_request s) h

round-connections : (r : Round) (s : Service) → connections (round r s).1 ≡ to_list (next_request s)
unfolding serve_round take_request
round-connections r s =
    let taken = take_request r.connect s in
    connections-append taken.1 (finish_round r.lws_service taken.0 taken.0.requests).1
    ∙ ap₂ ◌++◌ (accept_next-connections r.connect s (next_request s))
        (finish_round-connections r.lws_service taken.0 taken.0.requests)
    ∙ append-nil (to_list (next_request s))

-- What a round takes of a queue that threads have put requests into.
record Taken (o : Option ℕ) (c : ℕ) (t : System ℕ) : Type 0 where
  found : (a : ℕ) → o ≡ some a → get_elem? t.log c ≡ some a
  behind : c + length (to_list o) ≤ t.ring.cursor
  caught_up : o ≡ none → c ≡ t.ring.cursor

some-Taken :
    (a c : ℕ) (t : System ℕ) → get_elem? t.log c ≡ some a → c < t.ring.cursor → Taken (some a) c t
some-Taken a c t logged lt = record {
  found = λ b is_b. logged ∙ is_b;
  behind = omega arith;
  caught_up = λ e. absurd (ground arith);
}

next_request-Taken :
    (s : Service) (t : System ℕ)
    → IsSound t
    → s.request_queue ≡ t.ring
    → s.cursor ≤ t.ring.cursor
    → t.ring.reserved ≤ s.cursor + t.ring.capacity
    → Taken (next_request s) s.cursor t
unfolding next_request available
next_request-Taken s t v same behind near = elim (Bool-cases (s.cursor == s.request_queue.cursor)) [
  | inl e ↦ rw e (record {
    found = λ a none_some. absurd (ground arith);
    behind = omega (arith, behind);
    caught_up = λ _. (==_iff s.cursor s.request_queue.cursor).0 e ∙ ap (λ q. q.cursor) same;
  })
  | inr e ↦
      let (a, found, logged) = at-eq-log s.cursor v start (ground (arith, same)) near in
      let it : at s.request_queue s.cursor ≡ some a = ap (λ q. at q s.cursor) same ∙ found in
      rw (e, it) (some-Taken a s.cursor t logged (ground (arith, same)))
]

-- What the loop did from position c in a number of rounds, when the threads asked for `log` and had
-- published some of it before: it was stopped, or it took all that was published, or one request in
-- each round.
pub record IsInOrder (c : ℕ) (log : List ℕ) (published rounds : ℕ) (out : Served) : Type 0 where
  pub in_order : connections out.calls ≡ take (length (connections out.calls)) (drop c log)
  pub counted : out.service.cursor ≡ c + length (connections out.calls)
  pub prompt :
      (out.service.run ≡ false)
      ⊎ ((published ≤ out.service.cursor) ⊎ (length (connections out.calls) ≡ rounds))

-- The same of the requests `l` by themselves.
record Follows (c : ℕ) (log : List ℕ) (p n : ℕ) (service : Service) (l : List ℕ) : Type 0 where
  in_order : l ≡ take (length l) (drop c log)
  counted : service.cursor ≡ c + length l
  prompt : (service.run ≡ false) ⊎ ((p ≤ service.cursor) ⊎ (length l ≡ n))

-- One more round before the others.
some-Follows :
    {c c' p p' n : ℕ} {log : List ℕ} {s : Service} {l : List ℕ} (o : Option ℕ)
    → p ≤ p'
    → (o ≡ none → c ≡ p')
    → ((a : ℕ) → o ≡ some a → get_elem? log c ≡ some a)
    → c' ≡ c + length (to_list o)
    → Follows c' log p' n s l
    → Follows c log p (suc n) s (to_list o ++ l)
some-Follows {c = c} {log = log} {l = l} none le up found moved v = record {
  in_order = v.in_order ∙ ap (λ n. take (length l) (drop n log)) (omega (arith, moved));
  counted = omega (arith, v.counted, moved);
  prompt = inr (inl (omega (arith, up refl, v.counted, moved)));
}
some-Follows {c = c} {c' = c'} {log = log} {l = l} (some a) le up found moved v =
    let next : c' ≡ suc c = omega (arith, moved) in
    record {
      in_order =
          ap (λ k. a ∷ k) (v.in_order ∙ ap (λ n. take (length l) (drop n log)) next)
          ∙ sym (ap (take (suc (length l))) (drop-get_elem? log c (found a refl)));
      counted = omega (arith, v.counted, moved);
      prompt = elim v.prompt [
        | inl stopped ↦ inl stopped
        | inr (inl all) ↦ inr (inl (omega arith))
        | inr (inr each) ↦ inr (inr (ap suc each))
      ];
    }

abbrev with_calls : List Action → Served → Served
with_calls acts rest = record rest { calls = acts ++ rest.calls }

with_calls-IsInOrder :
    {c c' p p' n : ℕ} {log : List ℕ} {rest : Served} (o : Option ℕ) (acts : List Action)
    → connections acts ≡ to_list o
    → p ≤ p'
    → (o ≡ none → c ≡ p')
    → ((a : ℕ) → o ≡ some a → get_elem? log c ≡ some a)
    → c' ≡ c + length (to_list o)
    → IsInOrder c' log p' n rest
    → IsInOrder c log p (suc n) (with_calls acts rest)
with_calls-IsInOrder {c = c} {p = p} {n = n} {log = log} {rest = rest} o acts made le up found moved
      v =
    let all = connections-append acts rest.calls ∙ ap (λ l. l ++ connections rest.calls) made in
    let step =
      some-Follows {s = rest.service} o le up found moved
        (record { in_order = v.in_order; counted = v.counted; prompt = v.prompt }) in
    record {
      in_order = rw all step.in_order;
      counted = rw all step.counted;
      prompt = rw all step.prompt;
    }

if-IsInOrder :
    {c p n : ℕ} {log : List ℕ} {x y : Served} (b : Bool)
    → IsInOrder c log p n x
    → (b ≡ false → IsInOrder c log p n y)
    → IsInOrder c log p n (if b then x else y)
if-IsInOrder true v w = v
if-IsInOrder false v w = w refl

Arrivals-Reach : {u v : System ℕ} {rs : List Round} → Arrivals u rs v → Reach u v
Arrivals-Reach no_more = start
Arrivals-Reach (next reach same more) = Reach-trans reach (Arrivals-Reach more)

-- Whatever the interleaving of the threads that ask with the rounds, and whenever the loop is
-- stopped, as long as there are never more claims that are not published than the queue has slots
-- and it is never lapped (no round finds its position claimed again): the
-- requests that it calls `lws_client_connect_via_info` for are those of the queue's log from its
-- cursor on, in the order of their claims, none twice and none left out, its cursor counts them, and
-- unless it is stopped it takes all that was published when it began, or one in each round.
pub serve-order :
    {u v : System ℕ} {rs : List Round} (s : Service)
    → IsSound u
    → s.cursor ≤ u.ring.cursor
    → Arrivals u rs v
    → InTime rs s
    → IsInOrder s.cursor v.log u.ring.cursor (length rs) (serve rs s)
unfolding serve
serve-order s sound behind no_more near = record {
  in_order = refl;
  counted = omega arith;
  prompt = inr (inr refl);
}
serve-order {u = u} {rs = r ∷ rs} s sound behind (next {t = t} {v = v} reach same more)
      (in_time, later) =
    let ready = Reach-IsSound sound reach in
    let s0 = arrive r s in
    let taken =
      next_request-Taken s0 t ready same (omega (arith, Reach-cursor sound reach))
        (ground (arith, same)) in
    let moved = round-cursor r s0 (omega (arith, ready.counted, ready.ordered, taken.behind)) in
    let rest = serve-order (round r s0).0 ready (omega (arith, moved, taken.behind)) more later in
    if-IsInOrder s0.run
      (with_calls-IsInOrder (next_request s0) (round r s0).1 (round-connections r s0)
        (Reach-cursor sound reach) taken.caught_up
        (λ a f. Reach-log s.cursor (Arrivals-Reach more) (taken.found a f)) moved rest)
      (λ ends. record { in_order = refl; counted = omega arith; prompt = inl ends })

-- The same done, and the loop over.
abbrev pub Ended : Served → Served → Type 0
Ended x y = (x.calls ≡ y.calls) × (x.service.run ≡ false)

with_calls-Ended :
    (b : Bool) (acts : List Action) (s : Service) (x y : Served)
    → s.run ≡ b
    → Ended x y
    → let stop : Served = record { service = s; calls = [] } in
      Ended (if b then with_calls acts x else stop) (if b then with_calls acts y else stop)
with_calls-Ended true acts s x y runs (calls, ended) = (ap (λ l. acts ++ l) calls, ended)
with_calls-Ended false acts s x y runs same = (refl, runs)

-- The loop ends, whatever else would come: once the destructor has cleared `run_`, the next test of
-- the loop is the last, and what libwebsockets and the users see is what the rounds before did.
pub serve-stops :
    (rs more : List Round) (r : Round) (s : Service)
    → r.stops ≡ true
    → Ended (serve (rs ++ r ∷ more) s) (serve rs s)
unfolding serve
serve-stops [] more r s stops = rw stops (refl, refl)
serve-stops (q ∷ rs) more r s stops =
    let s0 = arrive q s in
    let s' = (round q s0).0 in
    with_calls-Ended s0.run (round q s0).1 s0 (serve (rs ++ r ∷ more) s') (serve rs s') refl
      (serve-stops rs more r (round q s0).0 stops)
