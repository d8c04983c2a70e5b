-- ===== src/Tcp/Send/Wire.antt =====
-- tcp_send of src/tcp.c: which bytes it puts on the wire.
use liblxi.Base.{
  ℕ, zero, suc, ◌+◌, ◌-◌, ◌≤◌, ◌<◌, ◌≡◌, refl, sym, ap, ◌∙◌, [], ◌++◌, ℤ, pos, length,
  length-append, append-nil, append_assoc, take-append, take_all, ok, Bytes, arith,
}
use liblxi.Net.{Net, Timeval, SendLaw, sent}
use liblxi.Tcp.{TcpData, timeval_of_ms, send_loop, tcp_send}
use liblxi.Tcp.Send.{window, window-append, send_round, send_last, tcp_send-send_loop}

module _ {W : Type 0} (net : Net W) (law : SendLaw net) (fd : ℤ) where
  -- The loop on a message that the connection takes in two pieces.
  send_loop_two :
      (f : ℕ) (message a b : Bytes) (w w1 w2 : W)
      → 2 ≤ f
      → message ≡ a ++ b
      → 0 < length b
      → net.send fd message w ≡ (sent (length a), w1)
      → net.send fd b w1 ≡ (sent (length b), w2)
      → send_loop net f fd message 0 (length message) 0 w ≡ ok (pos (length message), w2)
  send_loop_two zero message a b w w1 w2 h split more e1 e2 = absurd (omega arith)
  send_loop_two (suc zero) message a b w w1 w2 h split more e1 e2 = absurd (omega arith)
  send_loop_two (suc (suc f)) message a b w w1 w2 h split more e1 e2 =
      let size : length message ≡ length a + length b = ap length split ∙ length-append a b in
      let whole : window message 0 (length message) ≡ message = take_all message in
      let left : length message - length a ≡ length b = omega arith in
      let part = window-append message a b [] (split ∙ ap (◌++◌ a) (sym (append-nil b))) in
      let total : 0 + length a + length b ≡ length message = omega arith in
      send_round net law fd message (suc f) 0 (length message) 0 (length a) w w1 (omega arith)
        (rw whole e1) (omega arith)
      ∙ rw left (
          send_last net law fd message f (length a) (length b) (0 + length a) (length b) w1 w2
            (omega arith) (rw part e2) (omega arith)
          ∙ rw total refl)

  -- On a message that it takes in three pieces of one length, the third call is given the second
  -- piece again.
  send_loop_three :
      (f : ℕ) (message a b c : Bytes) (w w1 w2 w3 : W)
      → 3 ≤ f
      → message ≡ a ++ (b ++ c)
      → 0 < length a
      → length b ≡ length a
      → length c ≡ length a
      → net.send fd message w ≡ (sent (length a), w1)
      → net.send fd (b ++ c) w1 ≡ (sent (length a), w2)
      → net.send fd b w2 ≡ (sent (length a), w3)
      → send_loop net f fd message 0 (length message) 0 w ≡ ok (pos (length message), w3)
  send_loop_three zero message a b c w w1 w2 w3 h split more hb hc e1 e2 e3 = absurd (omega arith)
  send_loop_three (suc zero) message a b c w w1 w2 w3 h split more hb hc e1 e2 e3 =
      absurd (omega arith)
  send_loop_three (suc (suc zero)) message a b c w w1 w2 w3 h split more hb hc e1 e2 e3 =
      absurd (omega arith)
  send_loop_three (suc (suc (suc f))) message a b c w w1 w2 w3 h split more hb hc e1 e2 e3 =
      let bc = length-append b c in
      let size : length message ≡ length a + length (b ++ c) =
        ap length split ∙ length-append a (b ++ c) in
      let k : ℕ = length a in
      let whole : window message 0 (length message) ≡ message = take_all message in
      let left : length message - k ≡ length (b ++ c) = omega arith in
      let left' : length (b ++ c) - k ≡ length b = omega arith in
      let part =
        window-append message a (b ++ c) [] (split ∙ ap (◌++◌ a) (sym (append-nil (b ++ c)))) in
      let again = window-append message a b c split in
      let total : 0 + k + k + k ≡ length message = omega arith in
      send_round net law fd message (suc (suc f)) 0 (length message) 0 k w w1 (omega arith)
        (rw whole e1) (omega arith)
      ∙ rw left (
          send_round net law fd message (suc f) k (length (b ++ c)) (0 + k) k w1 w2 (omega arith)
            (rw part e2) (omega arith)
          ∙ rw left' (
              send_last net law fd message f k (length b) (0 + k + k) k w2 w3 (omega arith)
                (rw again e3) (omega arith)
              ∙ rw total refl))

module _ {W : Type 0} (net : Net W) (law : SendLaw net) where
  wire-select :
      (fd : ℤ) (tv : Timeval) (status : ℤ) (w w1 : W)
      → net.select_write fd tv w ≡ (status, w1)
      → law.wire w1 ≡ law.wire w
  wire-select fd tv status w w1 e =
      ap (λ (q : ℤ × W). law.wire q.1) (sym e) ∙ law.select_wire fd tv w

  -- A piece at the front of what send() was offered.
  wire-sent :
      (fd : ℤ) (front back : Bytes) (w w1 : W)
      → net.send fd (front ++ back) w ≡ (sent (length front), w1)
      → law.wire w1 ≡ law.wire w ++ front
  wire-sent fd front back w w1 e =
      law.send_wire fd (front ++ back) w w1 (length front) e
      ∙ ap (◌++◌ (law.wire w)) (take-append front back)

  wire-sent_all :
      (fd : ℤ) (bytes : Bytes) (w w1 : W)
      → net.send fd bytes w ≡ (sent (length bytes), w1)
      → law.wire w1 ≡ law.wire w ++ bytes
  wire-sent_all fd bytes w w1 e =
      law.send_wire fd bytes w w1 (length bytes) e ∙ ap (◌++◌ (law.wire w)) (take_all bytes)

  -- When select() has found the socket writable and send() takes the message in two pieces, the
  -- second of them not empty, tcp_send returns the length of the message and the connection has
  -- been given exactly the bytes of the message, in order. The system calls keep to POSIX.
  pub tcp_send_two_pieces :
      (d : TcpData) (message a b : Bytes) (timeout : ℤ) (k : ℕ) (w w1 w2 w3 : W)
      → message ≡ a ++ b
      → 0 < length b
      → net.select_write d.server_socket (timeval_of_ms timeout) w ≡ (pos (suc k), w1)
      → net.send d.server_socket message w1 ≡ (sent (length a), w2)
      → net.send d.server_socket b w2 ≡ (sent (length b), w3)
      → (tcp_send net d message (length message) timeout w ≡ ok (pos (length message), d, w3))
        × (law.wire w3 ≡ law.wire w ++ message)
  tcp_send_two_pieces d message a b timeout k w w1 w2 w3 split more s e1 e2 = (
    tcp_send-send_loop net law d message (length message) timeout (pos (suc k))
        (pos (length message)) w w1 w3 s refl refl
        (send_loop_two net law d.server_socket (suc (length message)) message a b w1 w2 w3
          (omega (arith, ap length split, length-append a b)) split more e1 e2),
    wire-sent_all d.server_socket b w2 w3 e2
        ∙ ap (λ (x : Bytes). x ++ b)
            (wire-sent d.server_socket a b w1 w2 (rw split at e1)
              ∙ ap (λ (x : Bytes). x ++ a) (wire-select d.server_socket _ _ w w1 s))
        ∙ append_assoc (law.wire w) a b
        ∙ ap (◌++◌ (law.wire w)) (sym split),
  )

  -- When send() takes the message in three pieces of one length, tcp_send still returns the length
  -- of the message, but the third piece that the connection has been given is the second one once
  -- more: the end of the message is never sent. select() has found the socket writable, the pieces
  -- are not empty, and the system calls keep to POSIX.
  pub tcp_send_repeats_piece :
      (d : TcpData) (message a b c : Bytes) (timeout : ℤ) (k : ℕ) (w w1 w2 w3 w4 : W)
      → message ≡ a ++ (b ++ c)
      → 0 < length a
      → length b ≡ length a
      → length c ≡ length a
      → net.select_write d.server_socket (timeval_of_ms timeout) w ≡ (pos (suc k), w1)
      → net.send d.server_socket message w1 ≡ (sent (length a), w2)
      → net.send d.server_socket (b ++ c) w2 ≡ (sent (length a), w3)
      → net.send d.server_socket b w3 ≡ (sent (length a), w4)
      → (tcp_send net d message (length message) timeout w ≡ ok (pos (length message), d, w4))
        × (law.wire w4 ≡ law.wire w ++ (a ++ (b ++ b)))
  tcp_send_repeats_piece d message a b c timeout k w w1 w2 w3 w4 split more hb hc s e1 e2 e3 =
      let fd = d.server_socket in
      let size = ap length split ∙ length-append a (b ++ c) in
      (
        tcp_send-send_loop net law d message (length message) timeout (pos (suc k))
            (pos (length message)) w w1 w4 s refl refl
            (send_loop_three net law fd (suc (length message)) message a b c w1 w2 w3 w4
              (omega (arith, size, length-append b c)) split more hb hc e1 e2 e3),
        wire-sent_all fd b w3 w4 (rw hb e3)
            ∙ ap (λ (x : Bytes). x ++ b)
                (wire-sent fd b c w2 w3 (rw hb e2)
                  ∙ ap (λ (x : Bytes). x ++ b)
                      (wire-sent fd a (b ++ c) w1 w2 (rw split at e1)
                        ∙ ap (λ (x : Bytes). x ++ a) (wire-select fd _ _ w w1 s)))
            ∙ append_assoc (law.wire w ++ a) b b
            ∙ append_assoc (law.wire w) a (b ++ b),
      )
