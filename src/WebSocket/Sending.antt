-- ===== src/WebSocket/Sending.antt =====
-- A message on its way from `send` to the network.
use slicksocket.Base.{
  ℕ, zero, suc, ◌+◌, ◌-◌, ◌^◌, ◌≤◌, ◌<◌, ◌≡◌, refl, sym, ap, ap₂, ◌∙◌, ◌⊎◌, inl, inr, Bool, true,
  false, none, some, List, [], ◌∷◌, ◌++◌, arith, length, drop, read_at, sub64,
}
use slicksocket.Url.Search.{drop-append}
use slicksocket.StringRing.{StringRing, Slice, read}
use slicksocket.StringRing.View.{IsReady}
use slicksocket.StringRing.Dequeue.{Delivers, read-Delivers}
use slicksocket.StringRing.Write.{Peer, write, returned}
use slicksocket.StringRing.Write.Enqueue.Append.{HasRoom}
use slicksocket.StringRing.Write.Enqueue.Parts.{write_parts-IsReady}
use slicksocket.Request.{RequestInfo, Reply, dummy, lws_write, callback_on_writable, cancel_service}
use slicksocket.WebSocket.{done, send, send_parts, header, zeros, put_buffer, pass_on, writeable}

length-zeros : (n : ℕ) → length (zeros n) ≡ n
length-zeros zero = refl
length-zeros (suc n) = ap suc (length-zeros n)

pub length-header : (n : ℕ) → length (header n) ≡ n
length-header zero = refl
length-header (suc n) = ap suc (length-zeros n)

pub drop-header : (n : ℕ) (m : List ℕ) → drop n (header n ++ m) ≡ m
drop-header n m =
    ap (λ k. drop k (header n ++ m)) (sym (length-header n)) ∙ drop-append (header n) m

read_at-drop :
    (mem : List ℕ) (i n k : ℕ) → k ≤ n → read_at mem (i + k) (n - k) ≡ drop k (read_at mem i n)
read_at-drop mem i n zero h =
    let at : i + 0 ≡ i = omega arith in
    let all : n - 0 ≡ n = omega arith in ap₂ (read_at mem) at all
read_at-drop mem i zero (suc k) h = absurd (omega arith)
read_at-drop mem i (suc n) (suc k) h =
    let at : i + suc k ≡ suc i + k = omega arith in
    let left : suc n - suc k ≡ n - k = omega arith in
    ap₂ (read_at mem) at left ∙ read_at-drop mem (suc i) n k (omega arith)

send_parts-eq :
    (debug : Bool) (lws_pre : ℕ) (r : RequestInfo) (msg : List ℕ) (peers peers' : List Peer)
    {s' s : StringRing}
    → write debug r.socket_info.sending_buffer (header lws_pre) (length msg) peers
      ≡ returned true s'
    → write debug s' msg 0 peers' ≡ returned true s
    → send_parts debug lws_pre r msg peers peers'
      ≡ done true (some (put_buffer r s)) (callback_on_writable ∷ cancel_service ∷ [])
unfolding send_parts
send_parts-eq debug lws_pre r msg peers peers' first second = rw (first, second)

send-open :
    (debug : Bool) (lws_pre : ℕ) (r : RequestInfo) (msg : List ℕ) (peers peers' : List Peer) {w : ℕ}
    → r.wsi ≡ some w
    → send debug lws_pre (some r) msg peers peers' ≡ send_parts debug lws_pre r msg peers peers'
unfolding send
send-open debug lws_pre r msg peers peers' open_ =
    ap
      (λ o. elim o [
        | none ↦ done false (some r) []
        | some w ↦ send_parts debug lws_pre r msg peers peers'
      ])
      open_

-- `send` of a message that is not empty, on a connection of which the buffer has room for it and
-- LWS_PRE characters more: it returns true, asks for a callback when the connection is writable, wakes the service, and the
-- message, behind the space for the header, is the last string of the buffer.
pub send-IsReady :
    {r : RequestInfo} {w : ℕ} {ms : List (List ℕ)} (debug : Bool) (lws_pre : ℕ) (msg : List ℕ)
    (peers peers' : List Peer)
    → r.wsi ≡ some w
    → IsReady r.socket_info.sending_buffer ms
    → 0 < lws_pre
    → 0 < length msg
    → HasRoom r.socket_info.sending_buffer (length (header lws_pre ++ msg))
    → (s : StringRing) × (send debug lws_pre (some r) msg peers peers'
        ≡ done true (some (put_buffer r s)) (callback_on_writable ∷ cancel_service ∷ []))
      × IsReady s (ms ++ (header lws_pre ++ msg) ∷ [])
send-IsReady {r} debug lws_pre msg peers peers' open_ v some_pre some_msg room =
    let (s', s, first, second, v') =
      write_parts-IsReady (header lws_pre) msg debug peers peers' v
        (omega (arith, length-header lws_pre)) some_msg room in
    (
      s,
      send-open debug lws_pre r msg peers peers' open_
          ∙ send_parts-eq debug lws_pre r msg peers peers' first second,
      v',
    )

-- What the callback has done for a connection with this payload at the front of its buffer.
pub record Sends (payload : List ℕ) (ms : List (List ℕ)) (out : Reply RequestInfo) : Type 0 where
  pub accepted : out.answer ≡ dummy
  pub actions : out.actions ≡ lws_write payload ∷ callback_on_writable ∷ []
  pub rest : IsReady out.request.socket_info.sending_buffer ms

payload-eq :
    (m : List ℕ) (lws_pre : ℕ) (s : StringRing) (at n : ℕ)
    → lws_pre < length m
    → length m < 2 ^ 64
    → read_at s.buffer at n ≡ m
    → n ≡ length m
    → read_at s.buffer (at + lws_pre) (sub64 n lws_pre) ≡ drop lws_pre m
payload-eq m lws_pre s at n some_payload small bytes count =
    let less : sub64 n lws_pre ≡ n - lws_pre = omega arith in
    ap (λ k. read_at s.buffer (at + lws_pre) k) less
    ∙ read_at-drop s.buffer at n lws_pre (omega arith)
    ∙ ap (drop lws_pre) bytes

pass_on-empty :
    (written : List ℕ → ℕ) (lws_pre : ℕ) (r : RequestInfo) (len : ℕ) (out : Slice × StringRing)
    → out.0 ≡ (none, 0)
    → pass_on written lws_pre r len out
      ≡ record { request = put_buffer r out.1; answer = dummy; actions = [] }
unfolding pass_on
pass_on-empty written lws_pre r len (slice, s) e = ap (λ o. pass_on written lws_pre r len (o, s)) e

module _ {m : List ℕ} {ms : List (List ℕ)} (written : List ℕ → ℕ) (lws_pre len : ℕ)
    (some_payload : lws_pre < length m) (small : length m < 2 ^ 64)
    (all : len ≤ written (drop lws_pre m)) where
  pass_on-eq :
      (r : RequestInfo) (s : StringRing) (at n : ℕ)
      → Delivers m ms ((some at, n), s)
      → pass_on written lws_pre r len ((some at, n), s) ≡ record {
        request = put_buffer r s;
        answer = dummy;
        actions = lws_write (drop lws_pre m) ∷ callback_on_writable ∷ [];
      }
  unfolding pass_on
  pass_on-eq r s at n d =
      ground (arith, d.count, payload-eq m lws_pre s at n some_payload small d.bytes d.count)

  delivered-Sends :
      (r : RequestInfo) (out : Slice × StringRing)
      → Delivers m ms out
      → Sends (drop lws_pre m) ms (pass_on written lws_pre r len out)
  delivered-Sends r ((none, n), s) d = absurd (omega (arith, ap length d.bytes))
  delivered-Sends r ((some at, n), s) d =
      rw (pass_on-eq r s at n d) (record { accepted = refl; actions = refl; rest = d.rest })

  -- The callback of a writable connection passes the payload of the oldest string to `lws_write`
  -- and asks to be called again, now or, behind a SKIP mark, when it is called once more; provided
  -- that `lws_write` does not return less than the `len` of the callback.
  pub writeable-Sends :
      (r : RequestInfo)
      → IsReady r.socket_info.sending_buffer (m ∷ ms)
      → Sends (drop lws_pre m) ms (writeable written lws_pre r len)
        ⊎ (((writeable written lws_pre r len).actions ≡ [])
            × Sends
                (drop lws_pre m)
                ms
                (writeable written lws_pre (writeable written lws_pre r len).request len))
  unfolding writeable
  writeable-Sends r v = elim (read-Delivers v) [
    | inl d ↦ inl (delivered-Sends r (read r.socket_info.sending_buffer) d)
    | inr (mark, d) ↦ inr (
        rw (pass_on-empty written lws_pre r len (read r.socket_info.sending_buffer) mark) (
          refl,
          delivered-Sends (put_buffer r (read r.socket_info.sending_buffer).1)
              (read (read r.socket_info.sending_buffer).1) d,
        ))
  ]
