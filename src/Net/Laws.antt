-- ===== src/Net/Laws.antt =====
-- The operations of the interface, and what their documentation promises.
use liblxi.Base.{ℕ, ◌≤◌, ◌<◌, ◌≡◌, Bool, List, ◌∷◌, ◌++◌, ℤ, pos, negsuc, length, take, Bytes}

-- struct timeval
pub record Timeval : Type 0 where
  pub tv_sec : ℤ
  pub tv_usec : ℤ

-- struct sockaddr_in, with the port in network order. The family is always AF_INET.
pub record SockAddr : Type 0 where
  pub sin_port : ℕ
  pub s_addr : ℕ

-- What getaddrinfo gives: a status that is not 0, or the first entry of the list of addresses.
pub data AddrInfo : Type 0 where
  gai_error : ℤ → AddrInfo
  resolved : Bool → ℕ → AddrInfo

-- send() and recv() return -1, or the number of bytes taken, or the bytes received.
pub data Sent : Type 0 where
  send_failed : Sent
  sent : ℕ → Sent

pub data Received : Type 0 where
  recv_failed : Received
  received : Bytes → Received

-- What connect() returns, with errno reduced to the one value that the code tests for.
pub data Connecting : Type 0 where
  connected : Connecting
  in_progress : Connecting
  refused : Connecting

pub record Net (W : Type 0) : Type 0 where
  pub socket : W → ℤ × W
  pub fcntl_getfl : ℤ → W → ℤ × W
  pub fcntl_setfl : ℤ → ℤ → W → ℤ × W
  -- opt | O_NONBLOCK
  pub or_nonblock : ℤ → ℤ
  pub htons : ℕ → ℕ
  pub inet_addr : Bytes → ℕ
  -- sprintf("%d")
  pub decimal : ℤ → Bytes
  pub getaddrinfo : Bytes → Bytes → W → AddrInfo × W
  pub connect : ℤ → SockAddr → W → Connecting × W
  pub select_write : ℤ → Timeval → W → ℤ × W
  pub select_read : ℤ → Timeval → W → ℤ × W
  -- The status of getsockopt(SO_ERROR), and the pending error that it stores.
  pub getsockopt_error : ℤ → W → ℤ × ℤ × W
  pub close : ℤ → W → W
  -- `send` is given the bytes that it may take; `recv` the room and the flags.
  pub send : ℤ → Bytes → W → Sent × W
  pub recv : ℤ → ℕ → ℤ → W → Received × W

-- POSIX: recv() stores at most the bytes that there is room for.
pub record RecvLaw {W : Type 0} (net : Net W) : Type 0 where
  pub recv_fits :
      (fd : ℤ) (room : ℕ) (flags : ℤ) (w w' : W) (bytes : Bytes)
      → net.recv fd room flags w ≡ (received bytes, w')
      → length bytes ≤ room

-- POSIX: send() takes a first part of the bytes, on a blocking socket at least one if there is one,
-- and nothing else when it fails. `wire` is what the connection has been given so far.
pub record SendLaw {W : Type 0} (net : Net W) : Type 0 where
  pub wire : W → Bytes
  pub send_fits :
      (fd : ℤ) (bytes : Bytes) (w w' : W) (n : ℕ)
      → net.send fd bytes w ≡ (sent n, w')
      → n ≤ length bytes
  pub send_moves :
      (fd : ℤ) (bytes : Bytes) (w w' : W) (n : ℕ)
      → net.send fd bytes w ≡ (sent n, w')
      → 0 < length bytes
      → 0 < n
  pub send_wire :
      (fd : ℤ) (bytes : Bytes) (w w' : W) (n : ℕ)
      → net.send fd bytes w ≡ (sent n, w')
      → wire w' ≡ wire w ++ take n bytes
  pub select_wire : (fd : ℤ) (tv : Timeval) (w : W) → wire (net.select_write fd tv w).1 ≡ wire w

-- The descriptors that the process holds open, the newest first. Only socket() and close() change
-- them.
pub record FdLaw {W : Type 0} (net : Net W) : Type 0 where
  pub fds : W → List ℤ
  pub socket_opens : (w w' : W) (n : ℕ) → net.socket w ≡ (pos n, w') → fds w' ≡ pos n ∷ fds w
  pub socket_fails : (w w' : W) (n : ℕ) → net.socket w ≡ (negsuc n, w') → fds w' ≡ fds w
  pub close_closes : (fd : ℤ) (w : W) (l : List ℤ) → fds w ≡ fd ∷ l → fds (net.close fd w) ≡ l
  pub getfl_keeps : (fd : ℤ) (w : W) → fds (net.fcntl_getfl fd w).1 ≡ fds w
  pub setfl_keeps : (fd opt : ℤ) (w : W) → fds (net.fcntl_setfl fd opt w).1 ≡ fds w
  pub getaddrinfo_keeps : (a p : Bytes) (w : W) → fds (net.getaddrinfo a p w).1 ≡ fds w
  pub connect_keeps : (fd : ℤ) (a : SockAddr) (w : W) → fds (net.connect fd a w).1 ≡ fds w
  pub select_keeps : (fd : ℤ) (tv : Timeval) (w : W) → fds (net.select_write fd tv w).1 ≡ fds w
  pub getsockopt_keeps : (fd : ℤ) (w : W) → fds (net.getsockopt_error fd w).2 ≡ fds w
