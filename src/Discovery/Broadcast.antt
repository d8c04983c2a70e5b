-- ===== src/Discovery/Broadcast.antt =====
-- src/vxi11.c: discover_devices, vxi11_discover and vxi11_discover_if.
use liblxi.Base.{
  ℕ, zero, suc, Bool, false, Option, none, some, List, [], ◌∷◌, ℤ, pos, minus_one, is_minus_one,
  is_zero, is_positive, ◌==◌, if◌then◌else◌, Run, ok, fault, fuel, null, ◌>>=◌, or_fault, Bytes,
  same_text,
}
use liblxi.Net.{Net}
use liblxi.Tcp.{timeval_of_ms}
use liblxi.Xdr.{Xdr}
use liblxi.Rpc.{Rpc, Threads}
use liblxi.Vxi11.{Vxi11Data}
use liblxi.Discovery.{Info, Xml, Frame, IfAddrs, Udp}
use liblxi.Discovery.Identify.{get_device_id, id_length_max}

abbrev pub port_rpc : ℕ
port_rpc = 111

abbrev pub af_inet : ℕ
af_inet = 2

-- rpc_GETPORT_msg
abbrev pub rpc_getport_msg : Bytes
rpc_getport_msg =
    0x00 ∷ 0x00 ∷ 0x03 ∷ 0xe8 ∷ 0x00 ∷ 0x00 ∷ 0x00 ∷ 0x00 ∷ 0x00 ∷ 0x00 ∷ 0x00 ∷ 0x02 ∷ 0x00 ∷ 0x01
    ∷ 0x86 ∷ 0xa0 ∷ 0x00 ∷ 0x00 ∷ 0x00 ∷ 0x02 ∷ 0x00 ∷ 0x00 ∷ 0x00 ∷ 0x03 ∷ 0x00 ∷ 0x00 ∷ 0x00
    ∷ 0x00 ∷ 0x00 ∷ 0x00 ∷ 0x00 ∷ 0x00 ∷ 0x00 ∷ 0x00 ∷ 0x00 ∷ 0x00 ∷ 0x00 ∷ 0x00 ∷ 0x00 ∷ 0x00
    ∷ 0x00 ∷ 0x06 ∷ 0x07 ∷ 0xaf ∷ 0x00 ∷ 0x00 ∷ 0x00 ∷ 0x01 ∷ 0x00 ∷ 0x00 ∷ 0x00 ∷ 0x06 ∷ 0x00
    ∷ 0x00 ∷ 0x00 ∷ 0x00 ∷ []

-- A callback of two texts that may be NULL.
abbrev pub notify : {W : Type 0} → Option (Bytes → Bytes → W → W) → Bytes → Bytes → W → W
notify none a b w = w
notify (some callback) a b w = callback a b w

-- The test for AF_INET on an address that may be NULL.
abbrev pub is_inet : Option (ℕ × ℕ) → Bool
is_inet none = false
is_inet (some (family, number)) = family == af_inet

abbrev pub number_of : Option (ℕ × ℕ) → Option ℕ
number_of none = none
number_of (some (family, number)) = some number

-- The broadcast callback of vxi11_discover, for an interface that has a name.
abbrev pub notify_named :
    {W : Type 0} → Option (Bytes → Bytes → W → W) → Bytes → Option Bytes → W → W
notify_named callback address none w = w
notify_named callback address (some name) w = notify callback address name w

module _ {S W Doc Node : Type 0} (x : Xdr S) (rpc : Rpc S W) (threads : Threads Vxi11Data W)
    (net : Net W) (udp : Udp W) (xml : Xml Doc Node) (rounds : ℕ) (frame : Frame) (info : Info W)
    (timeout : ℤ) where
  -- What the loop of discover_devices does for one response. The callback is given the whole
  -- buffer, in which the ID string ends at its NUL.
  unfoldable pub visit : ℕ → Bytes → W → Run (Bytes × W)
  visit sender id w = do
    let address = udp.inet_ntoa sender
    (status, id1, w1) ← get_device_id x rpc threads net xml rounds frame address id timeout w
    if is_zero status then ok (id1, notify info.device address id1 w1) else ok (id1, w1)

  -- The loop over the responses; `fuel` is one more than the responses at least.
  unfoldable pub response_loop : ℕ → ℤ → Bytes → W → Run W
  response_loop zero sockfd id w = fault fuel
  response_loop (suc f) sockfd id w = do
    let (count, sender, w1) = udp.recvfrom sockfd id_length_max w
    let round = do (id1, w2) ← visit sender id w1; response_loop f sockfd id1 w2
    if is_positive count then round else ok w1

  -- discover_devices from its bind() on. The socket is not closed.
  unfoldable pub ask_devices : ℕ → ℤ → Option ℕ → Bytes → W → Run (ℤ × W)
  ask_devices f sockfd broadcast_addr id w = do
    let w1 = udp.bind sockfd 0 0 w
    address ← or_fault broadcast_addr null
    let w2 = udp.sendto sockfd rpc_getport_msg address (net.htons port_rpc) w1
    w3 ← response_loop f sockfd id w2
    ok (pos 0, w3)

  -- discover_devices, where an address of `none` is NULL: `id` is what its buffer holds first, and `f` bounds the responses.
  unfoldable pub discover_devices : ℕ → Bytes → Option ℕ → W → Run (ℤ × W)
  discover_devices f id broadcast_addr w =
      let (sockfd, w1) = udp.socket w in
      let (broadcast, w2) = udp.setsockopt_broadcast sockfd w1 in
      let (limit, w3) = udp.setsockopt_rcvtimeo sockfd (timeval_of_ms timeout) w2 in
      if is_minus_one sockfd
      then ok (minus_one, w1)
      else (if is_minus_one broadcast
          then ok (minus_one, udp.shutdown sockfd w2)
          else (if is_minus_one limit
              then ok (minus_one, udp.shutdown sockfd w3)
              else ask_devices f sockfd broadcast_addr id w3))

  -- The body of the loop of vxi11_discover.
  unfoldable pub discover_on : ℕ → Bytes → IfAddrs → W → Run W
  discover_on f id ifap w =
      if is_inet ifap.ifa_addr
      then elim ifap.ifa_broadaddr [
        | none ↦ ok w
        | some (family, address) ↦ do
          (status, w1) ←
              discover_devices f id (some address)
                (notify_named info.broadcast (udp.inet_ntoa address) ifap.ifa_name w)
          ok w1
      ]
      else ok w

  unfoldable pub discover_all : ℕ → Bytes → List IfAddrs → W → Run W
  discover_all f id [] w = ok w
  discover_all f id (ifap ∷ rest) w = do w1 ← discover_on f id ifap w; discover_all f id rest w1

  unfoldable pub vxi11_discover : ℕ → Bytes → W → Run (ℤ × W)
  vxi11_discover f id w =
      let (found, w1) = udp.getifaddrs w in
      elim found [
        | none ↦ ok (pos 0, w1)
        | some ifap ↦ do w2 ← discover_all f id ifap w1; ok (pos 0, udp.freeifaddrs ifap w2)
      ]

  -- The broadcast callback of vxi11_discover_if, which reads the address without a test for NULL.
  unfoldable pub announce : Option (ℕ × ℕ) → Bytes → W → Run W
  announce broadaddr name w = elim info.broadcast [
    | none ↦ ok w
    | some callback ↦ do
      (family, address) ← or_fault broadaddr null
      ok (callback (udp.inet_ntoa address) name w)
  ]

  -- What vxi11_discover_if does on an interface that it is asked for.
  unfoldable pub discover_named : ℕ → Bytes → Bytes → Option (ℕ × ℕ) → W → Run (ℤ × W)
  discover_named f id name broadaddr w = do
    w1 ← announce broadaddr name w
    discover_devices f id (number_of broadaddr) w1

  -- The body of the loop of vxi11_discover_if, which hands the interface's name to strcmp().
  unfoldable pub discover_if : ℕ → Bytes → Bytes → IfAddrs → ℤ → W → Run (ℤ × W)
  discover_if f id ifname ifap status w = do
    let named = do
      name ← or_fault ifap.ifa_name null
      if same_text name ifname
          then discover_named f id name ifap.ifa_broadaddr w
          else ok (status, w)
    if is_inet ifap.ifa_addr then named else ok (status, w)

  unfoldable pub discover_all_if : ℕ → Bytes → Bytes → List IfAddrs → ℤ → W → Run (ℤ × W)
  discover_all_if f id ifname [] status w = ok (status, w)
  discover_all_if f id ifname (ifap ∷ rest) status w = do
    (status1, w1) ← discover_if f id ifname ifap status w
    discover_all_if f id ifname rest status1 w1

  unfoldable pub vxi11_discover_if : ℕ → Bytes → Bytes → W → Run (ℤ × W)
  vxi11_discover_if f id ifname w =
      let (found, w1) = udp.getifaddrs w in
      elim found [
        | none ↦ ok (pos 0, w1)
        | some ifap ↦ do
          (status, w2) ← discover_all_if f id ifname ifap (pos 0) w1
          ok (status, udp.freeifaddrs ifap w2)
      ]
