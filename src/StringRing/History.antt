-- ===== src/StringRing/History.antt =====
-- Calls of `write` and `read` one after another, against a queue.
use slicksocket.Base.{
  ℕ, zero, suc, ◌*◌, ◌≤◌, ◌<◌, ◌≡◌, refl, sym, ap, ap₂, subst, ◌∙◌, inl, inr, Bool, true, none,
  List, [], ◌∷◌, ◌++◌, arith, length, ◌==◌, if◌then◌else◌,
}
use mathlib.Core.List.{append_assoc}
use slicksocket.StringRing.{StringRing, Slice, read, bytes_of}
use slicksocket.StringRing.View.{IsReady}
use slicksocket.StringRing.Dequeue.{
  Delivers, read-Delivers, read-empty, read-IsReady, first-nonempty,
}
use slicksocket.StringRing.Write.{Peer, write, returned}
use slicksocket.StringRing.Write.Enqueue.Append.{HasRoom, write-IsReady}
use slicksocket.StringRing.Write.Enqueue.Parts.{write_parts-IsReady}

-- The calls since s: the strings that were written and those that were read, in their order. Each
-- string is written when there is room for it, in one call or in two.
pub data Calls (s : StringRing) : List (List ℕ) → List (List ℕ) → StringRing → Type 0 where
  start : Calls s [] [] s
  writes :
      {sent received : List (List ℕ)} {t u : StringRing} (debug : Bool) (m : List ℕ)
      (peers : List Peer)
      → Calls s sent received t
      → HasRoom t (length m)
      → write debug t m 0 peers ≡ returned true u
      → Calls s (sent ++ m ∷ []) received u
  writes_parts :
      {sent received : List (List ℕ)} {t u w : StringRing} (debug : Bool) (a b : List ℕ)
      (peers peers' : List Peer)
      → Calls s sent received t
      → 0 < length a
      → 0 < length b
      → HasRoom t (length (a ++ b))
      → write debug t a (length b) peers ≡ returned true u
      → write debug u b 0 peers' ≡ returned true w
      → Calls s (sent ++ (a ++ b) ∷ []) received w
  reads :
      {sent received : List (List ℕ)} {t : StringRing}
      → Calls s sent received t
      → 0 < (read t).0.1
      → Calls s sent (received ++ bytes_of (read t).1 (read t).0 ∷ []) (read t).1
  reads_nothing :
      {sent received : List (List ℕ)} {t : StringRing}
      → Calls s sent received t
      → (read t).0.1 ≡ 0
      → Calls s sent received (read t).1

-- What was written is what was read and what still waits, in one order.
pub record IsQueue (sent received : List (List ℕ)) (t : StringRing) : Type 0 where
  pub waiting : List (List ℕ)
  pub in_order : sent ≡ received ++ waiting
  pub ready : IsReady t waiting

returned-state : {b c : Bool} {s t : StringRing} → returned b s ≡ returned c t → s ≡ t
returned-state e = cc

IsQueue-read :
    {sent : List (List ℕ)} (received : List (List ℕ)) {t : StringRing} (ms : List (List ℕ))
    → sent ≡ received ++ ms
    → IsReady t ms
    → 0 < (read t).0.1
    → IsQueue sent (received ++ bytes_of (read t).1 (read t).0 ∷ []) (read t).1
IsQueue-read received {t = t} [] e v some_bytes =
    let nothing : (read t).0.1 ≡ 0 = ap (λ (r : Slice × StringRing). r.0.1) (read-empty v) in
    absurd (omega arith)
IsQueue-read received (m ∷ ms) e v some_bytes = elim (read-Delivers v) [
  | inl d ↦ record {
    waiting = ms;
    in_order =
        e
        ∙ sym (append_assoc received (m ∷ []) ms)
        ∙ ap (λ x. (received ++ x ∷ []) ++ ms) (sym d.bytes);
    ready = d.rest;
  }
  | inr (mark, d) ↦ let nothing = ap (λ (r : Slice). r.1) mark in absurd (omega arith)
]

IsQueue-nothing :
    {sent received : List (List ℕ)} {t : StringRing} (ms : List (List ℕ))
    → sent ≡ received ++ ms
    → IsReady t ms
    → (read t).0.1 ≡ 0
    → IsQueue sent received (read t).1
IsQueue-nothing [] e v nothing = record { waiting = []; in_order = e; ready = rw (read-empty v) v }
IsQueue-nothing (m ∷ ms) e v nothing = record {
  waiting = m ∷ ms;
  in_order = e;
  ready = read-IsReady v nothing;
}

IsQueue-write :
    {sent received : List (List ℕ)} {t u u' : StringRing} (m : List ℕ) (q : IsQueue sent received t)
    → returned true u' ≡ returned true u
    → IsReady u' (q.waiting ++ m ∷ [])
    → IsQueue (sent ++ m ∷ []) received u
IsQueue-write {received = received} m q same v = record {
  waiting = q.waiting ++ m ∷ [];
  in_order = ap (λ x. x ++ m ∷ []) q.in_order ∙ append_assoc received q.waiting (m ∷ []);
  ready = subst (λ x. IsReady x (q.waiting ++ m ∷ [])) (returned-state same) v;
}

-- After any calls since the buffer was empty, writes in one or two parts, each with room, and reads
-- in any order, the strings that were written are those that were read, in that order, and behind
-- them those that wait in the buffer.
pub Calls-IsQueue :
    {s t : StringRing} {sent received : List (List ℕ)}
    → IsReady s []
    → Calls s sent received t
    → IsQueue sent received t
Calls-IsQueue v start = record { waiting = []; in_order = refl; ready = v }
Calls-IsQueue v (writes debug m peers c room e) =
    let q = Calls-IsQueue v c in
    let (u', e', v') = write-IsReady m debug peers q.ready room in IsQueue-write m q (sym e' ∙ e) v'
Calls-IsQueue v (writes_parts {u = u} debug a b peers peers' c some_a some_b room e f) =
    let q = Calls-IsQueue v c in
    let (u', w', e', f', v') =
      write_parts-IsReady a b debug peers peers' q.ready some_a some_b room in
    let same : u' ≡ u = returned-state (sym e' ∙ e) in
    IsQueue-write (a ++ b) q (sym f' ∙ ap (λ x. write debug x b 0 peers') same ∙ f) v'
Calls-IsQueue v (reads c some_bytes) =
    let q = Calls-IsQueue v c in IsQueue-read _ q.waiting q.in_order q.ready some_bytes
Calls-IsQueue v (reads_nothing c nothing) =
    let q = Calls-IsQueue v c in IsQueue-nothing q.waiting q.in_order q.ready nothing

-- A number of calls of `read`, with the strings that they give.
pub read_all : ℕ → StringRing → List (List ℕ) × StringRing
read_all zero s = ([], s)
read_all (suc n) s =
    let (out, s') = read s in
    let (ms, t) = read_all n s' in ((if out.1 == 0 then ms else bytes_of s' out ∷ ms), t)

read_all-empty : {s : StringRing} (n : ℕ) → IsReady s [] → read_all n s ≡ ([], s)
unfolding read_all
read_all-empty zero v = refl
read_all-empty (suc n) v = rw (read-empty v, read_all-empty n v)

-- The strings that were given are these, and none is left.
pub record Drains (ms : List (List ℕ)) (out : List (List ℕ) × StringRing) : Type 0 where
  pub strings : out.0 ≡ ms
  pub rest : IsReady out.1 []

read_all-got :
    (s : StringRing) {m : List ℕ} {ms : List (List ℕ)} (n : ℕ)
    → 0 < length m
    → Delivers m ms (read s)
    → Drains ms (read_all n (read s).1)
    → Drains (m ∷ ms) (read_all (suc n) s)
unfolding read_all
read_all-got s n some_bytes d r = record {
  strings = ground (arith, d.count, ap₂ ◌∷◌ d.bytes r.strings);
  rest = r.rest;
}

read_all-skipped :
    (s : StringRing) {ms : List (List ℕ)} (n : ℕ)
    → (read s).0 ≡ (none, 0)
    → Drains ms (read_all n (read s).1)
    → Drains ms (read_all (suc n) s)
unfolding read_all
read_all-skipped s n mark r = record { strings = rw mark r.strings; rest = r.rest }

-- Two calls of `read` for each string that waits give them all, in their order, and leave the
-- buffer empty; further calls do no harm.
pub read_all-Drains :
    (n : ℕ) {s : StringRing} {ms : List (List ℕ)}
    → IsReady s ms
    → 2 * length ms ≤ n
    → Drains ms (read_all n s)
read_all-Drains n {ms = []} v enough = rw (read_all-empty n v) (record { strings = refl; rest = v })
read_all-Drains zero {ms = m ∷ ms} v enough = absurd (omega arith)
read_all-Drains (suc zero) {ms = m ∷ ms} v enough = absurd (omega arith)
read_all-Drains (suc (suc n)) {s = s} {ms = m ∷ ms} v enough = elim (read-Delivers v) [
  | inl d ↦
      read_all-got s (suc n) (first-nonempty v) d (read_all-Drains (suc n) d.rest (omega arith))
  | inr (mark, d) ↦
      read_all-skipped s (suc n) mark
        (read_all-got (read s).1 n (first-nonempty v) d (read_all-Drains n d.rest (omega arith)))
]
