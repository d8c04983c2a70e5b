-- ===== src/Tcp/Receive/Reply.antt =====
-- tcp_receive and tcp_receive_ of src/tcp.c as a whole: what a caller gets.
use mathlib.Core.Path.{ap₂}
use liblxi.Base.{
  ℕ, suc, ◌+◌, ◌≤◌, ◌≡◌, refl, ap, ◌∙◌, ◌⊎◌, inl, inr, false, List, [], ◌∷◌, ◌++◌, ℤ, pos,
  minus_one, is_minus_one, is_zero, length, drop, flat, ok, Bytes, arith, Bool-cases,
}
use liblxi.Net.{Net, RecvLaw}
use liblxi.Tcp.{TcpData, timeval_of_ms, receive_with, tcp_receive}
use liblxi.Tcp.Receive.{
  Delivers, stored, recv_loop-Delivers, Delivers-total, Delivers-fits, length-stored,
  length-flat_three, stored_few, stored_third,
}

module _ {W : Type 0} (net : Net W) (law : RecvLaw net) where
  -- Once select() has not failed or timed out, the count of all bytes that came is returned, and
  -- the buffer holds each piece at the length of the piece before it.
  receive_with-Delivers :
      (d : TcpData) (message : Bytes) (len : ℕ) (timeout flags status : ℤ) (w w1 : W) {w' : W}
      {cs : List Bytes}
      → length message ≡ len
      → net.select_read d.server_socket (timeval_of_ms timeout) w ≡ (status, w1)
      → is_minus_one status ≡ false
      → is_zero status ≡ false
      → Delivers net d.server_socket flags len w1 cs w'
      → receive_with net d message len timeout flags w
        ≡ ok (pos (length (flat cs)), stored message 0 cs, d, w')
  unfolding receive_with
  receive_with-Delivers d message len timeout flags status w w1 {w'} {cs} h s m z r =
      let e : 0 + length (flat cs) ≡ length (flat cs) = omega arith in
      let loop =
        recv_loop-Delivers net law d.server_socket flags (suc len) 0 len 0 message r (omega arith)
          (omega arith) in
      rw (s, m, z, loop, e) refl

  receive_with_bounds :
      (d : TcpData) (message : Bytes) (len : ℕ) (timeout flags : ℤ) (w : W)
      → length message ≡ len
      → (status : ℤ) × (message' : Bytes) × (w' : W) × (receive_with net d message len timeout flags
            w
          ≡ ok (status, message', d, w'))
        × ((status ≡ minus_one) ⊎ ((n : ℕ) × (status ≡ pos n) × (n ≤ len)))
        × (length message' ≡ len)
  receive_with_bounds d message len timeout flags w h =
      let fd = d.server_socket in
      let (status, w1) = net.select_read fd (timeval_of_ms timeout) w in
      let (cs, w', r) = Delivers-total net law fd flags (suc len) len w1 (omega arith) in
      let fits = Delivers-fits net law fd flags r in
      elim (Bool-cases (is_minus_one status)) [
        | inl m ↦ (minus_one, message, w1, unfold receive_with in rw m refl, inl refl, h)
        | inr m ↦ elim (Bool-cases (is_zero status)) [
          | inl z ↦ (minus_one, message, w1, unfold receive_with in rw (m, z) refl, inl refl, h)
          | inr z ↦ (
            pos (length (flat cs)),
            stored message 0 cs,
            w',
            receive_with-Delivers d message len timeout flags status w w1 h refl m z r,
            inr (length (flat cs), refl, fits),
            length-stored cs message 0 (omega arith) ∙ h,
          )
        ]
      ]

module _ {W : Type 0} (net : Net W) (law : RecvLaw net) where
  -- With a recv() that keeps to POSIX, tcp_receive ends on every world, stays inside the buffer,
  -- and returns -1 or a count of at most `len` bytes. The buffer keeps its size. The buffer has
  -- `len` bytes.
  pub tcp_receive_bounds :
      (d : TcpData) (message : Bytes) (len : ℕ) (timeout : ℤ) (w : W)
      → length message ≡ len
      → (status : ℤ) × (message' : Bytes) × (w' : W) × (tcp_receive net d message len timeout w
          ≡ ok (status, message', d, w'))
        × ((status ≡ minus_one) ⊎ ((n : ℕ) × (status ≡ pos n) × (n ≤ len)))
        × (length message' ≡ len)
  unfolding tcp_receive
  tcp_receive_bounds d message len timeout w h =
      receive_with_bounds net law d message len timeout (pos 0x40) w h

  -- While the whole reply comes in at most two pieces, tcp_receive returns the number of bytes
  -- that came and the buffer starts with exactly those bytes, in order; the rest of it is
  -- unchanged. The buffer has `len` bytes, select() has found the socket readable, and recv()
  -- keeps to POSIX.
  pub tcp_receive_two_pieces :
      (d : TcpData) (message : Bytes) (len k : ℕ) (timeout : ℤ) (w w1 : W) {w' : W}
      {cs : List Bytes}
      → length message ≡ len
      → net.select_read d.server_socket (timeval_of_ms timeout) w ≡ (pos (suc k), w1)
      → Delivers net d.server_socket (pos 0x40) len w1 cs w'
      → length cs ≤ 2
      → tcp_receive net d message len timeout w
        ≡ ok (pos (length (flat cs)), flat cs ++ drop (length (flat cs)) message, d, w')
  unfolding tcp_receive
  tcp_receive_two_pieces d message len k timeout w w1 {w'} {cs} h s r few =
      receive_with-Delivers net law d message len timeout (pos 0x40) (pos (suc k)) w w1 h s refl
        refl r
      ∙ ap (λ (m : Bytes). ok (pos (length (flat cs)), m, d, w')) (stored_few message cs few)

  -- When a reply comes in three pieces of one length, tcp_receive stores the third piece over the
  -- second, which is lost, and still returns the number of bytes of all three. The buffer has
  -- `len` bytes, select() has found the socket readable, and recv() keeps to POSIX.
  pub tcp_receive_loses_piece :
      (d : TcpData) (message : Bytes) (len k : ℕ) (timeout : ℤ) (w w1 : W) {w' : W} (a b c : Bytes)
      → length message ≡ len
      → net.select_read d.server_socket (timeval_of_ms timeout) w ≡ (pos (suc k), w1)
      → Delivers net d.server_socket (pos 0x40) len w1 (a ∷ b ∷ c ∷ []) w'
      → length a ≡ length b
      → length b ≡ length c
      → tcp_receive net d message len timeout w
        ≡ ok (
          pos (length a + length b + length c),
          a ++ (c ++ drop (length a + length b) message),
          d,
          w',
        )
  unfolding tcp_receive
  tcp_receive_loses_piece d message len k timeout w w1 {w'} a b c h s r ab bc =
      receive_with-Delivers net law d message len timeout (pos 0x40) (pos (suc k)) w w1 h s refl
        refl r
      ∙ ap₂ (λ (n : ℕ) (m : Bytes). ok (pos n, m, d, w')) (length-flat_three a b c)
          (stored_third message a b c ab bc)
