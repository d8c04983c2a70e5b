-- ===== src/Tcp.antt =====
-- src/tcp.c: the RAW protocol's connection over a TCP socket. Lengths are numbers: the `int length`
-- of a caller is the size of its buffer, so it is not negative.
pub mod Receive
pub mod Send
pub mod Connect
use liblxi.Base.{
  ℕ, zero, suc, ◌+◌, ◌-◌, ◌*◌, ◌%◌, ◌^◌, ◌≡◌, Bool, true, false, Option, List, [], ◌∷◌, ℤ, pos,
  negsuc, minus_one, is_negative, is_minus_one, is_zero, quot, rem, scale, neg, leb, ◌==◌,
  if◌then◌else◌, length, Run, ok, fault, fuel, ◌>>=◌, Bytes, read_at, write_at,
}
use liblxi.Net.{
  Net, Timeval, SockAddr, AddrInfo, gai_error, resolved, Sent, send_failed, sent, Received,
  recv_failed, received, Connecting, connected, in_progress, refused,
}

-- tcp_data_t
pub record TcpData : Type 0 where
  pub server_socket : ℤ

abbrev pub inaddr_none : ℕ
inaddr_none = 0xffff_ffff

-- The conversion of an `int` to the uint16_t that htons() takes.
abbrev pub to_u16 : ℤ → ℕ
to_u16 (pos n) = n % 2 ^ 16
to_u16 (negsuc n) = 2 ^ 16 - 1 - n % 2 ^ 16

-- A timeout in milliseconds as seconds and microseconds.
unfoldable pub timeval_of_ms : ℤ → Timeval
timeval_of_ms timeout = record {
  tv_sec = quot timeout 1000;
  tv_usec = scale (rem timeout 1000) 1000;
}

module _ {W : Type 0} (net : Net W) where
  -- The socket, set non-blocking. `some opt` are its flags before that.
  unfoldable pub open_socket : W → (Option ℤ × TcpData × W)
  open_socket w =
      let (fd, w1) = net.socket w in
      let d : TcpData = record { server_socket = fd } in
      let (opt, w2) = net.fcntl_getfl fd w1 in
      let (set, w3) = net.fcntl_setfl fd (net.or_nonblock opt) w2 in
      if is_negative fd
      then (Option.none, d, w1)
      else (if is_negative opt
          then (Option.none, d, w2)
          else (if is_negative set then (Option.none, d, w3) else (Option.some opt, d, w3)))

  -- The server's address: dotted, or the first one that the resolver gives.
  unfoldable pub server_address : Bytes → ℤ → W → Option SockAddr × W
  server_address address port w =
      let port_n = net.htons (to_u16 port) in
      let direct = net.inet_addr address in
      let (info, w1) = net.getaddrinfo address (net.decimal port) w in
      if direct == inaddr_none
      then elim info [
        | gai_error status ↦ (Option.none, w1)
        | resolved is_inet addr ↦ (
          if is_inet
              then Option.some (record { sin_port = port_n; s_addr = addr })
              else Option.none,
          w1,
        )
      ]
      else (Option.some (record { sin_port = port_n; s_addr = direct }), w)

  -- connect(), and select() where it is still in progress: negative, 0 for a timeout, or positive.
  unfoldable pub await_connection : ℤ → SockAddr → ℤ → W → ℤ × W
  await_connection fd addr timeout w =
      let (answer, w1) = net.connect fd addr w in
      elim answer [
        | connected ↦ (pos 1, w1)
        | in_progress ↦ net.select_write fd (timeval_of_ms timeout) w1
        | refused ↦ (minus_one, w1)
      ]

  -- From connect() to the end of tcp_connect; every failure closes the socket.
  unfoldable pub finish_connect : ℤ → ℤ → SockAddr → ℤ → W → ℤ × W
  finish_connect fd opt addr timeout w =
      let (result, w1) = await_connection fd addr timeout w in
      let (set, w2) = net.fcntl_setfl fd opt w1 in
      let (status, pending, w3) = net.getsockopt_error fd w2 in
      if is_negative set
      then (minus_one, net.close fd w2)
      else (if is_negative result
          then (minus_one, net.close fd w2)
          else (if is_zero result
              then (minus_one, net.close fd w2)
              else (if is_zero status then (pos 0, w3) else (minus_one, net.close fd w3))))

  -- `name` is not used.
  unfoldable pub tcp_connect : TcpData → Bytes → ℤ → Option Bytes → ℤ → W → Run (ℤ × TcpData × W)
  tcp_connect d0 address port name timeout w =
      let (opened, d, w1) = open_socket w in
      let (found, w2) = server_address address port w1 in
      elim opened [
        | Option.none ↦ ok (minus_one, d, w1)
        | Option.some opt ↦ elim found [
          | Option.none ↦ ok (minus_one, d, w2)
          | Option.some addr ↦
              let (status, w3) = finish_connect d.server_socket opt addr timeout w2 in
              ok (status, d, w3)
        ]
      ]

  unfoldable pub tcp_disconnect : TcpData → W → Run (ℤ × TcpData × W)
  tcp_disconnect d w = ok (pos 0, d, net.close d.server_socket w)

  -- `do { n = send(socket, message + n, length, 0); … } while (length > 0)`. The offset is the
  -- last `n`, as in the source.
  unfoldable pub send_loop : ℕ → ℤ → Bytes → (n length bytes_sent : ℕ) → W → Run (ℤ × W)
  send_loop zero fd message n remaining bytes_sent w = fault fuel
  send_loop (suc f) fd message n remaining bytes_sent w = do
    offered ← read_at message n remaining
    let (answer, w1) = net.send fd offered w
    elim answer [
      | send_failed ↦ ok (minus_one, w1)
      | sent m ↦
          let rest = send_loop f fd message m (remaining - m) (bytes_sent + m) w1 in
          if leb 1 (remaining - m) then rest else ok (pos (bytes_sent + m), w1)
    ]

  -- Each round but the last takes a byte at least, so `length + 1` rounds are enough.
  unfoldable pub tcp_send : TcpData → Bytes → ℕ → ℤ → W → Run (ℤ × TcpData × W)
  tcp_send d message len timeout w =
      let fd = d.server_socket in
      let (status, w1) = net.select_write fd (timeval_of_ms timeout) w in
      let sending = do
        (bytes_sent, w2) ← send_loop (suc len) fd message 0 len 0 w1
        ok (bytes_sent, d, w2)
      in if is_minus_one status
        then ok (minus_one, d, w1)
        else (if is_zero status then ok (minus_one, d, w1) else sending)

  -- `do { n = recv(socket, message + n, length, flags); … } while (n > 0)`.
  unfoldable pub recv_loop :
      ℕ → ℤ → ℤ → (n length bytes_received : ℕ) → Bytes → W → Run (ℤ × Bytes × W)
  recv_loop zero fd flags n room bytes_received message w = fault fuel
  recv_loop (suc f) fd flags n room bytes_received message w =
      let (answer, w1) = net.recv fd room flags w in
      elim answer [
        | recv_failed ↦ ok (pos bytes_received, message, w1)
        | received bytes ↦ do
          message' ← write_at message n bytes
          let m = length bytes
          let rest = recv_loop f fd flags m (room - m) (bytes_received + m) message' w1
          if leb 1 m then rest else ok (pos (bytes_received + m), message', w1)
      ]

  -- tcp_receive_
  unfoldable pub receive_with : TcpData → Bytes → ℕ → ℤ → ℤ → W → Run (ℤ × Bytes × TcpData × W)
  receive_with d message len timeout flags w =
      let fd = d.server_socket in
      let (status, w1) = net.select_read fd (timeval_of_ms timeout) w in
      let receiving = do
        (count, message', w2) ← recv_loop (suc len) fd flags 0 len 0 message w1
        ok (count, message', d, w2)
      in if is_minus_one status
        then ok (minus_one, message, d, w1)
        else (if is_zero status then ok (minus_one, message, d, w1) else receiving)

  -- MSG_DONTWAIT, as Linux defines it.
  abbrev msg_dontwait : ℤ
  msg_dontwait = pos 0x40

  unfoldable pub tcp_receive : TcpData → Bytes → ℕ → ℤ → W → Run (ℤ × Bytes × TcpData × W)
  tcp_receive d message len timeout w = receive_with d message len timeout msg_dontwait w

  unfoldable pub tcp_receive_wait : TcpData → Bytes → ℕ → ℤ → W → Run (ℤ × Bytes × TcpData × W)
  tcp_receive_wait d message len timeout w = receive_with d message len timeout (pos 0) w
