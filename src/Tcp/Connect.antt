-- ===== src/Tcp/Connect.antt =====
-- tcp_connect of src/tcp.c: which descriptors it leaves open, and what it takes for a connection.
use liblxi.Base.{
  ℕ, suc, ◌≡◌, refl, sym, ap, ◌∙◌, ◌⊎◌, inl, inr, Option, none, some, List, ◌∷◌, ℤ, pos, negsuc,
  minus_one, is_negative, is_zero, if◌then◌else◌, ok, Bytes, ◌==◌, arith, Bool-cases,
}
use liblxi.Net.{
  Net, FdLaw, SockAddr, AddrInfo, gai_error, resolved, Connecting, connected, in_progress, refused,
}
use liblxi.Tcp.{
  inaddr_none, to_u16, TcpData, timeval_of_ms, open_socket, server_address, await_connection,
  finish_connect, tcp_connect,
}

ℤ-pair-cases :
    {W : Type 0} (p : ℤ × W)
    → ((n : ℕ) × (w : W) × (p ≡ (pos n, w))) ⊎ ((n : ℕ) × (w : W) × (p ≡ (negsuc n, w)))
ℤ-pair-cases (pos n, w) = inl (n, w, refl)
ℤ-pair-cases (negsuc n, w) = inr (n, w, refl)

module _ {W : Type 0} (net : Net W) (law : FdLaw net) where
  await_connection-fds :
      (fd : ℤ) (addr : SockAddr) (timeout : ℤ) (w : W)
      → law.fds (await_connection net fd addr timeout w).1 ≡ law.fds w
  unfolding await_connection
  await_connection-fds fd addr timeout w = go (net.connect fd addr w) (law.connect_keeps fd addr w)
    where
      go :
          (p : Connecting × W)
          → law.fds p.1 ≡ law.fds w
          → law.fds
              (elim p.0 as (λ _. ℤ × W) [
                | connected ↦ (pos 1, p.1)
                | in_progress ↦ net.select_write fd (timeval_of_ms timeout) p.1
                | refused ↦ (minus_one, p.1)
              ]).1
            ≡ law.fds w
      go (connected, w1) e = e
      go (in_progress, w1) e = law.select_keeps fd (timeval_of_ms timeout) w1 ∙ e
      go (refused, w1) e = e

  -- From connect() on, success keeps the socket open, and every failure closes it.
  pub finish_connect-fds :
      (fd opt : ℤ) (addr : SockAddr) (timeout : ℤ) (w : W) (l : List ℤ)
      → law.fds w ≡ fd ∷ l
      → let (status, w') = finish_connect net fd opt addr timeout w in
        ((status ≡ pos 0) × (law.fds w' ≡ fd ∷ l)) ⊎ ((status ≡ minus_one) × (law.fds w' ≡ l))
  unfolding finish_connect
  finish_connect-fds fd opt addr timeout w l h =
      let (result, w1) = await_connection net fd addr timeout w in
      let (set, w2) = net.fcntl_setfl fd opt w1 in
      let (status, pending, w3) = net.getsockopt_error fd w2 in
      let h1 : law.fds w1 ≡ fd ∷ l = await_connection-fds fd addr timeout w ∙ h in
      let h2 : law.fds w2 ≡ fd ∷ l = law.setfl_keeps fd opt w1 ∙ h1 in
      let h3 : law.fds w3 ≡ fd ∷ l = law.getsockopt_keeps fd w2 ∙ h2 in
      elim (Bool-cases (is_negative set)) [
        | inl a ↦ rw a (inr (refl, law.close_closes fd w2 l h2))
        | inr a ↦ elim (Bool-cases (is_negative result)) [
          | inl b ↦ rw (a, b) (inr (refl, law.close_closes fd w2 l h2))
          | inr b ↦ elim (Bool-cases (is_zero result)) [
            | inl c ↦ rw (a, b, c) (inr (refl, law.close_closes fd w2 l h2))
            | inr c ↦ elim (Bool-cases (is_zero status)) [
              | inl z ↦ rw (a, b, c, z) (inl (refl, h3))
              | inr z ↦ rw (a, b, c, z) (inr (refl, law.close_closes fd w3 l h3))
            ]
          ]
        ]
      ]

  server_address-fds :
      (address : Bytes) (port : ℤ) (w : W)
      → law.fds (server_address net address port w).1 ≡ law.fds w
  unfolding server_address
  server_address-fds address port w = elim (Bool-cases (net.inet_addr address == inaddr_none)) [
    | inl a ↦ rw a (
        go (net.getaddrinfo address (net.decimal port) w)
          (law.getaddrinfo_keeps address (net.decimal port) w))
    | inr a ↦ rw a refl
  ]
    where
      go :
          (p : AddrInfo × W)
          → law.fds p.1 ≡ law.fds w
          → law.fds
              (elim p.0 as (λ _. Option SockAddr × W) [
                | gai_error status ↦ (Option.none, p.1)
                | resolved is_inet addr ↦ (
                  if is_inet
                      then Option.some
                          (record { sin_port = net.htons (to_u16 port); s_addr = addr })
                      else Option.none,
                  p.1,
                )
              ]).1
            ≡ law.fds w
      go (gai_error status, w1) e = e
      go (resolved is_inet addr, w1) e = e

  -- The first steps fail before a socket is there, or leave one open.
  open_socket-fds :
      (w : W)
      → let (opened, d, w1) = open_socket net w in
        ((opened ≡ none) × (law.fds w1 ≡ law.fds w))
        ⊎ ((n : ℕ) × (d.server_socket ≡ pos n) × (law.fds w1 ≡ pos n ∷ law.fds w))
  unfolding open_socket
  open_socket-fds w = elim (ℤ-pair-cases (net.socket w)) [
    | inl (n, w1, e) ↦
        let h1 = law.socket_opens w w1 n e in
        let (opt, w2) = net.fcntl_getfl (pos n) w1 in
        let h2 : law.fds w2 ≡ pos n ∷ law.fds w = law.getfl_keeps (pos n) w1 ∙ h1 in
        let (set, w3) = net.fcntl_setfl (pos n) (net.or_nonblock opt) w2 in
        let h3 : law.fds w3 ≡ pos n ∷ law.fds w = law.setfl_keeps (pos n) _ w2 ∙ h2 in
        rw e (elim (Bool-cases (is_negative opt)) [
          | inl a ↦ rw a (inr (n, refl, h2))
          | inr a ↦ elim (Bool-cases (is_negative set)) [
            | inl b ↦ rw (a, b) (inr (n, refl, h3))
            | inr b ↦ rw (a, b) (inr (n, refl, h3))
          ]
        ])
    | inr (n, w1, e) ↦ rw e (inl (refl, law.socket_fails w w1 n e))
  ]

  opened_fds :
      (w w1 : W) (d : TcpData) (opt : ℤ)
      → open_socket net w ≡ (some opt, d, w1)
      → law.fds w1 ≡ d.server_socket ∷ law.fds w
  opened_fds w w1 d opt e = elim (open_socket-fds w) [
    | inl (nothing, h) ↦ absurd (cc)
    | inr (n, s, h) ↦ cc
  ]

  -- When socket(), fcntl() and the address lookup have succeeded, tcp_connect returns: 0 with its
  -- new socket as the one more open descriptor, or -1 with the descriptors open that were open
  -- before. Only socket() and close() change the open descriptors.
  pub tcp_connect_fds :
      (d0 d : TcpData) (address : Bytes) (port : ℤ) (name : Option Bytes) (timeout opt : ℤ)
      (addr : SockAddr) (w w1 w2 : W)
      → open_socket net w ≡ (some opt, d, w1)
      → server_address net address port w1 ≡ (some addr, w2)
      → (status : ℤ) × (w' : W) × (tcp_connect net d0 address port name timeout w
          ≡ ok (status, d, w'))
        × (((status ≡ pos 0) × (law.fds w' ≡ d.server_socket ∷ law.fds w))
            ⊎ ((status ≡ minus_one) × (law.fds w' ≡ law.fds w)))
  unfolding tcp_connect
  tcp_connect_fds d0 d address port name timeout opt addr w w1 w2 e1 e2 =
      let (status, w') = finish_connect net d.server_socket opt addr timeout w2 in
      (
        status,
        w',
        ground (arith, e1, e2),
        finish_connect-fds d.server_socket opt addr timeout w2 (law.fds w) (
            ap (λ (q : Option SockAddr × W). law.fds q.1) (sym e2)
            ∙ server_address-fds address port w1
            ∙ opened_fds w w1 d opt e1),
      )

  -- When the socket has been made and the server's address is not found, tcp_connect returns -1
  -- and leaves the socket open: one more descriptor than before the call. Only socket() and
  -- close() change the open descriptors.
  pub tcp_connect_leaks :
      (d0 d : TcpData) (address : Bytes) (port : ℤ) (name : Option Bytes) (timeout opt : ℤ)
      (w w1 w2 : W)
      → open_socket net w ≡ (some opt, d, w1)
      → server_address net address port w1 ≡ (none, w2)
      → (tcp_connect net d0 address port name timeout w ≡ ok (minus_one, d, w2))
        × (law.fds w2 ≡ d.server_socket ∷ law.fds w)
  unfolding tcp_connect
  tcp_connect_leaks d0 d address port name timeout opt w w1 w2 e1 e2 = (
    ground (arith, e1, e2),
    ap (λ (q : Option SockAddr × W). law.fds q.1) (sym e2)
        ∙ server_address-fds address port w1
        ∙ opened_fds w w1 d opt e1,
  )

module _ {W : Type 0} (net : Net W) where
  -- When connect() is in progress, select() then finds the socket writable, the flags are reset
  -- and getsockopt() itself succeeds, tcp_connect returns 0 whatever error is pending on the
  -- socket, a refused connection included: the error that getsockopt() stores is not read. The
  -- socket has been made and the address found.
  pub tcp_connect_ignores_error :
      (d0 d : TcpData) (address : Bytes) (port : ℤ) (name : Option Bytes) (timeout opt pending : ℤ)
      (addr : SockAddr) (j k : ℕ) (w w1 w2 w3 w4 w5 w6 : W)
      → open_socket net w ≡ (some opt, d, w1)
      → server_address net address port w1 ≡ (some addr, w2)
      → net.connect d.server_socket addr w2 ≡ (in_progress, w3)
      → net.select_write d.server_socket (timeval_of_ms timeout) w3 ≡ (pos (suc k), w4)
      → net.fcntl_setfl d.server_socket opt w4 ≡ (pos j, w5)
      → net.getsockopt_error d.server_socket w5 ≡ (pos 0, pending, w6)
      → tcp_connect net d0 address port name timeout w ≡ ok (pos 0, d, w6)
  unfolding tcp_connect finish_connect await_connection
  tcp_connect_ignores_error d0 d address port name timeout opt pending addr j k w w1 w2 w3 w4 w5 w6
        e1 e2 e3 e4 e5 e6 =
      ground (arith, e1)
