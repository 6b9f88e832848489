-- ===== src/StringRing/Write/Enqueue/Parts.antt =====
-- A string that is written in two parts, as `websocket_client::send` does.
use slicksocket.Base.{
  ℕ, ◌+◌, ◌%◌, ◌^◌, ◌≤◌, ◌<◌, ◌≡◌, refl, sym, ap, ◌∙◌, Bool, true, false, List, [], ◌∷◌, ◌++◌,
  arith, length, length-append, write_at, write_at-append, mod-between, add64,
}
use slicksocket.StringRing.{StringRing, index}
use slicksocket.StringRing.View.{IsReady}
use slicksocket.StringRing.Dequeue.{index_lem}
use slicksocket.StringRing.Write.{returned, Peer, write}
use slicksocket.StringRing.Write.Steps.{put_part-open, put_part-last, write-continued}
use slicksocket.StringRing.Write.Block.{with_header}
use slicksocket.StringRing.Write.Enqueue.{
  IsShort, q, marked, q-fits, counted', headed, body, stored, write-headed, Clear,
}
use slicksocket.StringRing.Write.Enqueue.Append.{HasRoom, no_overlap, stored-IsReady}

module _ {s : StringRing} {ms : List (List ℕ)} (v : IsReady s ms) (a b : List ℕ)
    (r : IsShort s (length (a ++ b))) (some_a : 0 < length a) (some_b : 0 < length b)
    (clear : Clear v (a ++ b) r) where
  i : ℕ
  i = q v (a ++ b) r % s.size

  half : StringRing
  half = record (headed v (a ++ b) r) {
    buffer = write_at (with_header (marked v (a ++ b) r) i (a ++ b)) (i + 5) a;
    writing_cursor = q v (a ++ b) r + 5 + length a;
    remaining = length b;
    writing = false;
  }

  both : length (a ++ b) ≡ length a + length b
  both = length-append a b

  index-ahead : (d : ℕ) → d ≤ 5 + length a → index s (q v (a ++ b) r + d) ≡ i + d
  unfolding i
  index-ahead d le =
      let fits = q-fits v (a ++ b) r in
      index_lem v (q v (a ++ b) r + d)
      ∙ omega (
        arith,
        fits,
        both,
        mod-between (q v (a ++ b) r) (q v (a ++ b) r + d) s.size (omega arith)
            (omega (arith, fits, both)),
      )

  write-first :
      (debug : Bool) (peers : List Peer) → write debug s a (length b) peers ≡ returned true half
  unfolding headed half i
  write-first debug peers =
      let far : add64 (q v (a ++ b) r + 5) (length a) ≡ q v (a ++ b) r + 5 + length a =
        omega (arith, counted' v (a ++ b) r, both) in
      let bound : length a + length b < 2 ^ 64 = omega (arith, counted' v (a ++ b) r, both) in
      write-headed v (a ++ b) r debug peers a (length b) (sym both) some_a clear
      ∙ put_part-open debug (headed v (a ++ b) r) a (length b) both bound (omega arith) v.unskipped
      ∙ rw (index-ahead 5 (omega arith), far)

  write-second :
      (debug : Bool) (peers : List Peer)
      → write debug half b 0 peers ≡ returned true (stored v (a ++ b) r)
  unfolding headed half stored body i
  write-second debug peers =
      let end : add64 (q v (a ++ b) r) (length (a ++ b) + 5)
          ≡ q v (a ++ b) r + (length (a ++ b) + 5) =
        omega (arith, counted' v (a ++ b) r) in
      let place : index s (q v (a ++ b) r + 5 + length a) ≡ i + 5 + length a =
        ap (index s) (omega arith) ∙ index-ahead (5 + length a) (omega arith) ∙ omega arith in
      let bound : length b < 2 ^ 64 = omega (arith, counted' v (a ++ b) r, both) in
      write-continued debug half b 0 peers some_b v.quiet (omega arith)
      ∙ put_part-last debug (record half { writing = true }) b refl bound v.unskipped refl
      ∙ rw (place, end, write_at-append (with_header (marked v (a ++ b) r) i (a ++ b)) (i + 5) a b)

-- A string that is written in two parts is appended as one, when there is room for both.
pub write_parts-IsReady :
    {s : StringRing} {ms : List (List ℕ)} (a b : List ℕ) (debug : Bool) (peers peers' : List Peer)
    → IsReady s ms
    → 0 < length a
    → 0 < length b
    → HasRoom s (length (a ++ b))
    → (s' : StringRing) × (s'' : StringRing) × (write debug s a (length b) peers ≡ returned true s')
      × (write debug s' b 0 peers' ≡ returned true s'')
      × IsReady s'' (ms ++ (a ++ b) ∷ [])
unfolding q
write_parts-IsReady a b debug peers peers' v some_a some_b r =
    let clear = no_overlap v (a ++ b) r.is_short r.is_free in
    (
      half v a b r.is_short some_a some_b clear,
      stored v (a ++ b) r.is_short,
      write-first v a b r.is_short some_a some_b clear debug peers,
      write-second v a b r.is_short some_a some_b clear debug peers',
      stored-IsReady v (a ++ b) r.is_short r.is_free r.unfilled,
    )
