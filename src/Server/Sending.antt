-- ===== src/Server/Sending.antt =====
-- What the server's `send` and callback do to the buffers of its clients.
use mathlib.Core.Option
use slicksocket.Base.{
  ℕ, ◌≡◌, ◌≢◌, refl, ap, ◌∙◌, inl, inr, Bool, true, false, none, some, List, [], ◌∷◌, ◌++◌, arith,
  length, ◌==◌, ==_iff, Bool-cases, if◌then◌else◌,
}
use slicksocket.StringRing.{StringRing, fresh}
use slicksocket.StringRing.View.{IsReady}
use slicksocket.StringRing.Write.{Peer, write}
use slicksocket.StringRing.Write.Enqueue.Append.{HasRoom, write-IsReady}
use slicksocket.Request.{Event, raw_adopt, raw_close, callback_on_writable}
use slicksocket.Server.{
  Clients, find, replace, done, sent, send, adopt, on_reason, raw_socket_server_callback,
}

find-replace_self :
    (clients : Clients) (w : ℕ) (t : StringRing)
    → find (replace clients w t) w ≡ Option.map (λ s. t) (find clients w)
find-replace_self [] w t = refl
find-replace_self ((v, u) ∷ l) w t = elim (Bool-cases (v == w)) [
  | inl same ↦ rw (same, same) refl
  | inr other ↦ rw (other, other) (find-replace_self l w t)
]

find-replace_ne :
    (clients : Clients) (v w : ℕ) (t : StringRing)
    → v ≢ w
    → find (replace clients w t) v ≡ find clients v
find-replace_ne [] v w t ne = refl
find-replace_ne ((u, s) ∷ l) v w t ne = elim (Bool-cases (u == w)) [
  | inl same ↦
      let here = (==_iff u w).0 same in
      let other : (u == v) ≡ false = ground (arith, here, ne) in rw (same, other) refl
  | inr other ↦ rw other (ap (λ o. if u == v then some s else o) (find-replace_ne l v w t ne))
]

-- What `send` has done: the client's buffer holds the strings ms, and no other client's changed.
pub record Queues (clients clients' : Clients) (w : ℕ) (ms : List (List ℕ)) : Type 0 where
  pub buffer : StringRing
  pub stored : find clients' w ≡ some buffer
  pub strings : IsReady buffer ms
  pub others : (v : ℕ) → v ≢ w → find clients' v ≡ find clients v

-- `send` to a client of which the buffer has room: it returns true, asks for a callback when the
-- client's connection is writable, and appends the message to what this client is to be sent; the
-- buffers of the other clients stay as they are.
pub send-Queues :
    {s : StringRing} {ms : List (List ℕ)} (debug : Bool) (clients : Clients) (w : ℕ) (msg : List ℕ)
    (peers : List Peer)
    → find clients w ≡ some s
    → IsReady s ms
    → HasRoom s (length msg)
    → (clients' : Clients) × (send debug clients w msg peers
        ≡ done true clients' (callback_on_writable ∷ []))
      × Queues clients clients' w (ms ++ msg ∷ [])
unfolding send sent
send-Queues debug clients w msg peers found v room =
    let (s', wrote, v') = write-IsReady msg debug peers v room in
    (
      replace clients w s',
      ap
            (λ o. elim o [
              | none ↦ done false clients []
              | some t ↦ sent clients w (write debug t msg 0 peers)
            ])
            found
          ∙ ap (sent clients w) wrote,
      record {
        buffer = s';
        stored = find-replace_self clients w s' ∙ ap (Option.map (λ t. s')) found;
        strings = v';
        others = λ u ne. find-replace_ne clients u w s' ne;
      },
    )

adopt-known :
    (clients : Clients) (w : ℕ) (memory : List ℕ) {s : StringRing}
    → find clients w ≡ some s
    → adopt clients w memory ≡ clients
unfolding adopt
adopt-known clients w memory found =
    ap (λ o. elim o [ none ↦ (w, fresh memory 8192) ∷ clients | some t ↦ clients ]) found

-- When a connection is closed and a new one gets the same `wsi`, the new client starts with the
-- buffer of the old one, and all that was not sent from it.
pub reconnect-keeps_buffer :
    (written : List ℕ → ℕ) (memory : List ℕ) (clients : Clients) (w : ℕ) {s : StringRing}
    (closing opening : Event)
    → find clients w ≡ some s
    → closing.reason ≡ raw_close
    → opening.reason ≡ raw_adopt
    → find
        (raw_socket_server_callback written memory
          (raw_socket_server_callback written memory clients w closing).request
          w
          opening).request
        w
      ≡ some s
unfolding raw_socket_server_callback on_reason
reconnect-keeps_buffer written memory clients w closing opening found closes opens =
    rw (closes, opens) (ap (λ c. find c w) (adopt-known clients w memory found) ∙ found)
