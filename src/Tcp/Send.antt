-- ===== src/Tcp/Send.antt =====
-- tcp_send of src/tcp.c: its loop, and what it returns.
pub mod Wire
use liblxi.Base.{
  ℕ, zero, suc, ◌+◌, ◌-◌, ◌≤◌, ◌<◌, ◌≡◌, refl, sym, ap, ◌∙◌, ◌⊎◌, inl, inr, Bool, true, false, List,
  [], ◌∷◌, ◌++◌, ℤ, pos, minus_one, is_minus_one, is_zero, leb, if◌then◌else◌, length, take, drop,
  length-append, append-nil, append_assoc, length-take, length-drop, take-append, drop-append,
  take_all, Run, ok, ◌>>=◌, Bytes, read_at, read_at_lem, arith, Bool-cases,
}
use liblxi.Net.{Net, SendLaw, Sent, send_failed, sent}
use liblxi.Tcp.{TcpData, timeval_of_ms, send_loop, tcp_send}

-- The bytes that the loop offers.
abbrev window : Bytes → ℕ → ℕ → Bytes
window message n remaining = take remaining (drop n message)

Sent-cases :
    {W : Type 0} (p : Sent × W)
    → ((w' : W) × (p ≡ (send_failed, w'))) ⊎ ((m : ℕ) × (w' : W) × (p ≡ (sent m, w')))
Sent-cases (send_failed, w') = inl (w', refl)
Sent-cases (sent m, w') = inr (m, w', refl)

length-window :
    (message : Bytes) (n remaining : ℕ)
    → n + remaining ≤ length message
    → length (window message n remaining) ≡ remaining
length-window message n remaining h =
    omega (arith, length-take remaining (drop n message), length-drop n message)

window-append :
    (message a b c : Bytes) → message ≡ a ++ (b ++ c) → window message (length a) (length b) ≡ b
window-append message a b c e = rw (e, drop-append a (b ++ c), take-append b c) refl

-- A failure, or the number of all bytes.
abbrev IsSending : ℤ → ℕ → Type 0
IsSending z total = (z ≡ minus_one) ⊎ (z ≡ pos total)

module _ {W : Type 0} (net : Net W) (law : SendLaw net) (fd : ℤ) (message : Bytes) where
  -- A round after which bytes remain, and the last one.
  send_round :
      (f n remaining count m : ℕ) (w w1 : W)
      → n + remaining ≤ length message
      → net.send fd (window message n remaining) w ≡ (sent m, w1)
      → m < remaining
      → send_loop net (suc f) fd message n remaining count w
        ≡ send_loop net f fd message m (remaining - m) (count + m) w1
  unfolding send_loop
  send_round f n remaining count m w w1 h e lt = ground (arith, read_at_lem message n remaining h)

  send_last :
      (f n remaining count m : ℕ) (w w1 : W)
      → n + remaining ≤ length message
      → net.send fd (window message n remaining) w ≡ (sent m, w1)
      → remaining ≤ m
      → send_loop net (suc f) fd message n remaining count w ≡ ok (pos (count + m), w1)
  unfolding send_loop
  send_last f n remaining count m w w1 h e le = ground (arith, read_at_lem message n remaining h)

  send_loop_total :
      (f n remaining count : ℕ) (w : W)
      → remaining < f
      → n + remaining ≤ length message
      → (z : ℤ) × (w' : W) × (send_loop net f fd message n remaining count w ≡ ok (z, w'))
        × IsSending z (count + remaining)
  send_loop_total zero n remaining count w lt h = absurd (omega arith)
  send_loop_total (suc f) n remaining count w lt h =
      let size = length-window message n remaining h in
      elim (Sent-cases (net.send fd (window message n remaining) w)) [
        | inl (w1, e) ↦ (
          minus_one,
          w1,
          unfold send_loop in ground (arith, read_at_lem message n remaining h),
          inl refl,
        )
        | inr (m, w1, e) ↦
            let fits = law.send_fits fd (window message n remaining) w w1 m e in
            let moves = law.send_moves fd (window message n remaining) w w1 m e in
            elim (Bool-cases (leb remaining m)) [
              | inl last ↦ (
                pos (count + m),
                w1,
                send_last f n remaining count m w w1 h e (ground arith),
                inr (ap pos (ground arith)),
              )
              | inr more ↦
                  let (z, w', r, s) =
                    send_loop_total f m (remaining - m) (count + m) w1 (ground (arith, moves))
                      (ground arith) in
                  (
                    z,
                    w',
                    send_round f n remaining count m w w1 h e (ground arith) ∙ r,
                    ground arith,
                  )
            ]
      ]

module _ {W : Type 0} (net : Net W) (law : SendLaw net) where
  -- Once select() has not failed or timed out, tcp_send returns what the loop does.
  tcp_send-send_loop :
      (d : TcpData) (message : Bytes) (len : ℕ) (timeout status result : ℤ) (w w1 w2 : W)
      → net.select_write d.server_socket (timeval_of_ms timeout) w ≡ (status, w1)
      → is_minus_one status ≡ false
      → is_zero status ≡ false
      → send_loop net (suc len) d.server_socket message 0 len 0 w1 ≡ ok (result, w2)
      → tcp_send net d message len timeout w ≡ ok (result, d, w2)
  unfolding tcp_send
  tcp_send-send_loop d message len timeout status result w w1 w2 s m z loop =
      rw (s, m, z, loop) refl

  -- With system calls that keep to POSIX, tcp_send ends on every world, reads no byte outside the
  -- message, and returns -1 or the length of the whole message, never less. The message has `len`
  -- bytes.
  pub tcp_send_all_or_error :
      (d : TcpData) (message : Bytes) (len : ℕ) (timeout : ℤ) (w : W)
      → length message ≡ len
      → (status : ℤ) × (w' : W) × (tcp_send net d message len timeout w ≡ ok (status, d, w'))
        × ((status ≡ minus_one) ⊎ (status ≡ pos len))
  tcp_send_all_or_error d message len timeout w h =
      let fd = d.server_socket in
      let (status, w1) = net.select_write fd (timeval_of_ms timeout) w in
      let (z, w2, loop, sending) =
        send_loop_total net law fd message (suc len) 0 len 0 w1 (omega arith) (omega arith) in
      let e : 0 + len ≡ len = omega arith in
      elim (Bool-cases (is_minus_one status)) [
        | inl m ↦ (minus_one, w1, unfold tcp_send in rw m refl, inl refl)
        | inr m ↦ elim (Bool-cases (is_zero status)) [
          | inl z0 ↦ (minus_one, w1, unfold tcp_send in rw (m, z0) refl, inl refl)
          | inr z0 ↦ (
            z,
            w2,
            tcp_send-send_loop d message len timeout status z w w1 w2 refl m z0 loop,
            rw e at sending,
          )
        ]
      ]
