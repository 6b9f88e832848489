-- ===== src/RawSocket/Sending.antt =====
-- The bytes of `send` on their way to the network.
use slicksocket.Base.{
  ℕ, ◌≤◌, ◌<◌, ◌≡◌, refl, ap, ◌∙◌, ◌⊎◌, inl, inr, Bool, true, false, none, some, List, [], ◌∷◌,
  ◌++◌, arith, length,
}
use slicksocket.StringRing.{StringRing, Slice, read, bytes_of}
use slicksocket.StringRing.View.{IsReady}
use slicksocket.StringRing.Dequeue.{Delivers, read-Delivers}
use slicksocket.StringRing.Write.{Peer, write, returned}
use slicksocket.StringRing.Write.Enqueue.Append.{HasRoom, write-IsReady}
use slicksocket.Request.{dummy, RequestInfo, lws_write, callback_on_writable, cancel_service}
use slicksocket.WebSocket.{done, put_buffer}
use slicksocket.WebSocket.Sending.{Sends}
use slicksocket.RawSocket.{send, send_bytes, pass_on, writeable}

send_bytes-eq :
    (debug : Bool) (r : RequestInfo) (msg : List ℕ) (peers : List Peer) {s : StringRing}
    → write debug r.socket_info.sending_buffer msg 0 peers ≡ returned true s
    → send_bytes debug r msg peers
      ≡ done true (some (put_buffer r s)) (callback_on_writable ∷ cancel_service ∷ [])
unfolding send_bytes
send_bytes-eq debug r msg peers wrote = rw wrote

-- `send` on a connection of which the buffer has room for the bytes: it returns true, asks for a
-- callback when the connection is writable, wakes the service, and the bytes are the last string of
-- the buffer.
pub send-append :
    {r : RequestInfo} {w : ℕ} {ms : List (List ℕ)} (debug : Bool) (msg : List ℕ) (peers : List Peer)
    → r.wsi ≡ some w
    → IsReady r.socket_info.sending_buffer ms
    → HasRoom r.socket_info.sending_buffer (length msg)
    → (s : StringRing) × (send debug (some r) msg peers
        ≡ done true (some (put_buffer r s)) (callback_on_writable ∷ cancel_service ∷ []))
      × IsReady s (ms ++ msg ∷ [])
unfolding send
send-append {r} debug msg peers open_ v room =
    let (s, wrote, v') = write-IsReady msg debug peers v room in
    (
      s,
      ap (λ o. elim o [ none ↦ done false (some r) [] | some w ↦ send_bytes debug r msg peers ])
            open_
          ∙ send_bytes-eq debug r msg peers wrote,
      v',
    )

pass_on-eq :
    (written : List ℕ → ℕ) (len : ℕ) (r : RequestInfo) (slice : Slice) (s : StringRing) (m : List ℕ)
    → 0 < length m
    → len ≤ written m
    → bytes_of s slice ≡ m
    → slice.1 ≡ length m
    → pass_on written r len (slice, s) ≡ record {
      request = put_buffer r s;
      answer = dummy;
      actions = lws_write m ∷ callback_on_writable ∷ [];
    }
unfolding pass_on
pass_on-eq written len r slice s m some_bytes all bytes count = rw bytes (ground (arith, count))

delivered-Sends :
    {m : List ℕ} {ms : List (List ℕ)} (written : List ℕ → ℕ) (len : ℕ) (r : RequestInfo)
    (out : Slice × StringRing)
    → 0 < length m
    → len ≤ written m
    → Delivers m ms out
    → Sends m ms (pass_on written r len out)
delivered-Sends {m} written len r (slice, s) some_bytes all d =
    rw (pass_on-eq written len r slice s m some_bytes all d.bytes d.count)
      (record { accepted = refl; actions = refl; rest = d.rest })

pass_on-empty :
    (written : List ℕ → ℕ) (r : RequestInfo) (len : ℕ) (out : Slice × StringRing)
    → out.0 ≡ (none, 0)
    → pass_on written r len out
      ≡ record { request = put_buffer r out.1; answer = dummy; actions = [] }
unfolding pass_on
pass_on-empty written r len (slice, s) e = ap (λ o. pass_on written r len (o, s)) e

-- The callback of a writable connection passes the oldest string to `lws_write` and asks to be
-- called again, now or, behind a SKIP mark, when it is called once more; provided that `lws_write`
-- does not return less than the `len` of the callback.
pub writeable-passes :
    {m : List ℕ} {ms : List (List ℕ)} (written : List ℕ → ℕ) (len : ℕ) (r : RequestInfo)
    → 0 < length m
    → len ≤ written m
    → IsReady r.socket_info.sending_buffer (m ∷ ms)
    → Sends m ms (writeable written r len)
      ⊎ (((writeable written r len).actions ≡ [])
          × Sends m ms (writeable written (writeable written r len).request len))
unfolding writeable
writeable-passes written len r some_bytes all v = elim (read-Delivers v) [
  | inl d ↦ inl (delivered-Sends written len r (read r.socket_info.sending_buffer) some_bytes all d)
  | inr (mark, d) ↦ inr (
      rw (pass_on-empty written r len (read r.socket_info.sending_buffer) mark) (
        refl,
        delivered-Sends written len (put_buffer r (read r.socket_info.sending_buffer).1)
            (read (read r.socket_info.sending_buffer).1) some_bytes all d,
      ))
]
