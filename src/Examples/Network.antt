-- ===== src/Examples/Network.antt =====
-- A network on which a peer's replies come in given pieces and send() takes two bytes at most.
use liblxi.Base.{
  ℕ, ◌≤◌, ◌<◌, ◌≡◌, refl, sym, ap, ◌∙◌, List, [], ◌∷◌, ◌++◌, ℤ, pos, negsuc, length, take,
  length-take, Bytes, arith,
}
use liblxi.Net.{
  Net, RecvLaw, SendLaw, FdLaw, gai_error, Sent, sent, Received, recv_failed, received, in_progress,
}
use liblxi.Tcp.{inaddr_none}

-- The pieces to come, what has been sent, and the open descriptors.
pub record World : Type 0 where
  pub pieces : List Bytes
  pub outgoing : Bytes
  pub open_fds : List ℤ

abbrev tail : List ℤ → List ℤ
tail [] = []
tail (z ∷ zs) = zs

abbrev next_piece : ℕ → List Bytes → World → Received × World
next_piece room [] w = (recv_failed, w)
next_piece room (c ∷ cs) w = (received (take room c), record w { pieces = cs })

-- Two bytes at most.
abbrev taken : Bytes → ℕ
taken [] = 0
taken (a ∷ []) = 1
taken (a ∷ b ∷ bs) = 2

abbrev look_up : Bytes → ℕ
look_up [] = inaddr_none
look_up (c ∷ cs) = 0x0100_007f

abbrev pub network : Net World
network = record {
  socket = λ w. (pos 3, record w { open_fds = pos 3 ∷ w.open_fds });
  fcntl_getfl = λ fd w. (pos 2, w);
  fcntl_setfl = λ fd opt w. (pos 0, w);
  or_nonblock = λ opt. opt;
  htons = λ n. n;
  inet_addr = look_up;
  decimal = λ n. [];
  getaddrinfo = λ a p w. (gai_error (pos 1), w);
  connect = λ fd a w. (in_progress, w);
  select_write = λ fd tv w. (pos 1, w);
  select_read = λ fd tv w. (pos 1, w);
  getsockopt_error = λ fd w. (pos 0, pos 111, w);
  close = λ fd w. record w { open_fds = tail w.open_fds };
  send = λ fd bytes w.
      (sent (taken bytes), record w { outgoing = w.outgoing ++ take (taken bytes) bytes });
  recv = λ fd room flags w. next_piece room w.pieces w;
}

next_piece-fits :
    (room : ℕ) (cs : List Bytes) (w w' : World) (bytes : Bytes)
    → next_piece room cs w ≡ (received bytes, w')
    → length bytes ≤ room
next_piece-fits room [] w w' bytes e = absurd (cc)
next_piece-fits room (c ∷ cs) w w' bytes e =
    let same : take room c ≡ bytes = cc in
    let size = length-take room c in rw (← same) (omega arith)

pub network-RecvLaw : RecvLaw network
network-RecvLaw = record {
  recv_fits = λ fd room flags w w' bytes e. next_piece-fits room w.pieces w w' bytes e;
}

taken_fits : (bytes : Bytes) → taken bytes ≤ length bytes
taken_fits [] = omega arith
taken_fits (a ∷ []) = omega arith
taken_fits (a ∷ b ∷ bs) = omega arith

taken_moves : (bytes : Bytes) → 0 < length bytes → 0 < taken bytes
taken_moves [] h = absurd (omega arith)
taken_moves (a ∷ []) h = omega arith
taken_moves (a ∷ b ∷ bs) h = omega arith

sent_number : (m n : ℕ) (w w' : World) → ◌≡◌ {A = Sent × World} (sent m, w) (sent n, w') → m ≡ n
sent_number m n w w' e = cc

pub network-SendLaw : SendLaw network
network-SendLaw = record {
  wire = λ w. w.outgoing;
  send_fits = λ fd bytes w w' n e.
      let same : taken bytes ≡ n = sent_number _ _ _ _ e in rw (← same) (taken_fits bytes);
  send_moves = λ fd bytes w w' n e h.
      let same : taken bytes ≡ n = sent_number _ _ _ _ e in rw (← same) (taken_moves bytes h);
  send_wire = λ fd bytes w w' n e.
      let same : taken bytes ≡ n = sent_number _ _ _ _ e in
      ap (λ (p : Sent × World). p.1.outgoing) (sym e)
      ∙ ap (λ (k : ℕ). w.outgoing ++ take k bytes) same;
  select_wire = λ fd tv w. refl;
}

pub network-FdLaw : FdLaw network
network-FdLaw = record {
  fds = λ w. w.open_fds;
  socket_opens = λ w w' n e.
      ap (λ (p : ℤ × World). p.1.open_fds) (sym e) ∙ ap (λ (p : ℤ × World). p.0 ∷ w.open_fds) e;
  socket_fails =
      λ w w' n e. let clash : pos 3 ≡ negsuc n = ap (λ (p : ℤ × World). p.0) e in absurd (cc);
  close_closes = λ fd w l e. ap tail e;
  getfl_keeps = λ fd w. refl;
  setfl_keeps = λ fd opt w. refl;
  getaddrinfo_keeps = λ a p w. refl;
  connect_keeps = λ fd a w. refl;
  select_keeps = λ fd tv w. refl;
  getsockopt_keeps = λ fd w. refl;
}
