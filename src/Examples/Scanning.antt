-- ===== src/Examples/Scanning.antt =====
-- The theorems on the broadcasts of src/vxi11.c, on a network whose devices respond.
use liblxi.Base.{
  ℕ, ◌<◌, ◌≡◌, refl, ◌↔◌, ◌∙◌, ◌++◌, ok-injective, sym, ap, minus_one, inr, false, none, some, List,
  [], ◌∷◌, ℤ, pos, length, ok, fault, null, ◌>>=◌, Bytes,
}
use liblxi.Rpc.{Threads}
use liblxi.Vxi11.{Vxi11Data, vxi11_connect}
use liblxi.Discovery.{Info, IfAddrs, Udp}
use liblxi.Discovery.Identify.{get_device_id}
use liblxi.Discovery.Broadcast.{discover_devices, vxi11_discover, vxi11_discover_if}
use liblxi.Discovery.Scan.{
  Visit, identified, AnnounceLaw, Responses, quiet, passed_over, discover_devices-Responses,
}
use liblxi.Discovery.Interfaces.{ask_each, vxi11_discover-usable, vxi11_discover_if-null}
use liblxi.Examples.Device.{numbers_xdr, Bench, bench_rpc}
use liblxi.Examples.Discovery.{punctual, silent, elements, frame, holding}

-- Threads that cannot be created, so that no device is identified.
abbrev idle : Threads Vxi11Data Bench
idle = record punctual { pthread_create = λ w. (false, w) }

abbrev next_sender : Bytes → Bench → ℤ × ℕ × Bench
next_sender [] w = (pos 0, 0, w)
next_sender (b ∷ bs) w = (pos 1, b, record w { pending = bs })

-- A loopback interface without a broadcast address, and two others.
abbrev loopback : IfAddrs
loopback = record { ifa_name = some (1 ∷ []); ifa_addr = some (2, 7); ifa_broadaddr = none }

abbrev other : IfAddrs
other = record { ifa_name = some (2 ∷ []); ifa_addr = some (2, 8); ifa_broadaddr = some (2, 9) }

abbrev interfaces : List IfAddrs
interfaces =
    loopback
    ∷ other
    ∷ record { ifa_name = some (3 ∷ []); ifa_addr = some (10, 8); ifa_broadaddr = some (10, 9) }
    ∷ []

-- Every pending byte is the address of a device that responds.
abbrev pub datagrams : Udp Bench
datagrams = record {
  socket = λ w. (pos 3, w);
  setsockopt_broadcast = λ fd w. (pos 0, w);
  setsockopt_rcvtimeo = λ fd tv w. (pos 0, w);
  bind = λ fd a p w. w;
  sendto = λ fd b a p w. w;
  recvfrom = λ fd room w. next_sender w.pending w;
  shutdown = λ fd w. w;
  inet_ntoa = λ a. a ∷ [];
  getifaddrs = λ w. (some interfaces, w);
  freeifaddrs = λ l w. w;
}

abbrev watcher : Info Bench
watcher = record {
  broadcast = some (λ address name w. w);
  device = some (λ address id w. record w { heard = w.heard ++ ((address, id) ∷ []) });
  service = none;
}

not_identified :
    (address id : Bytes) (w : Bench)
    → get_device_id numbers_xdr bench_rpc idle silent elements 1 frame address id (pos 0) w
      ≡ ok (minus_one, id, w)
unfolding get_device_id vxi11_connect
not_identified address id w = refl

pop_keeps : (b : Bytes) (w : Bench) → (next_sender b w).2.heard ≡ w.heard
pop_keeps [] w = refl
pop_keeps (a ∷ b) w = refl

watcher-AnnounceLaw :
    AnnounceLaw numbers_xdr bench_rpc idle silent datagrams elements 1 frame watcher (pos 0) (pos 3)
watcher-AnnounceLaw = record {
  announced = λ w. w.heard;
  callback_adds = λ address id w. refl;
  recvfrom_keeps = λ w. pop_keeps w.pending w;
  identifying_keeps = λ address id id1 status w w1 e.
      ap (λ (p : ℤ × Bytes × Bench). p.2.heard)
        (ok-injective (sym e ∙ not_identified address id w));
}

one_response :
    Responses numbers_xdr bench_rpc idle silent datagrams elements 1 frame watcher
      (pos 0)
      (pos 3)
      []
      (holding (8 ∷ []) [])
      ((8, none) ∷ [])
      (holding [] [])
one_response =
    passed_over refl refl (not_identified (8 ∷ []) [] (holding [] [])) refl (quiet refl refl)

discover_devices-Responses_example :
    (discover_devices numbers_xdr bench_rpc idle silent datagrams elements 1 frame watcher
        (pos 0)
        2
        []
        (some 9)
        (holding (8 ∷ []) [])
      ≡ ok (pos 0, holding [] []))
    ↔ ((visits : List Visit) × Responses numbers_xdr bench_rpc idle silent datagrams elements 1
          frame watcher
          (pos 0)
          (pos 3)
          []
          (holding (8 ∷ []) [])
          visits
          (holding [] [])
        × (length visits < 2)
        × (watcher-AnnounceLaw.announced (holding [] [])
            ≡ watcher-AnnounceLaw.announced (holding (8 ∷ []) [])
              ++ identified numbers_xdr bench_rpc idle silent datagrams elements 1 frame watcher
                  (pos 0)
                  (pos 3)
                  visits))
discover_devices-Responses_example =
    discover_devices-Responses numbers_xdr bench_rpc idle silent datagrams elements 1 frame watcher
      (pos 0) (pos 3) watcher-AnnounceLaw 2 [] 9 (holding (8 ∷ []) []) (holding (8 ∷ []) [])
      (holding (8 ∷ []) []) (holding (8 ∷ []) []) (holding [] []) (pos 0) (pos 0) refl refl refl
      refl refl refl

vxi11_discover-usable_example :
    vxi11_discover numbers_xdr bench_rpc idle silent datagrams elements 1 frame watcher
      (pos 0)
      2
      []
      (holding (8 ∷ []) [])
    ≡ (do
      w2 ←
          ask_each numbers_xdr bench_rpc idle silent datagrams elements 1 frame watcher
            (pos 0)
            2
            []
            ((some (2 ∷ []), 9) ∷ [])
            (holding (8 ∷ []) [])
      ok (pos 0, w2))
vxi11_discover-usable_example =
    vxi11_discover-usable numbers_xdr bench_rpc idle silent datagrams elements 1 frame watcher
      (pos 0) 2 [] (holding (8 ∷ []) []) (holding (8 ∷ []) []) interfaces refl

-- The same interfaces, with the loopback interface behind another one.
abbrev loopback_last : Udp Bench
loopback_last = record datagrams { getifaddrs = λ w. (some (other ∷ loopback ∷ []), w) }

vxi11_discover_if-null_example :
    vxi11_discover_if numbers_xdr bench_rpc idle silent loopback_last elements 1 frame watcher
      (pos 0)
      2
      []
      (1 ∷ [])
      (holding [] [])
    ≡ fault null
vxi11_discover_if-null_example =
    vxi11_discover_if-null numbers_xdr bench_rpc idle silent loopback_last elements 1 frame watcher
      (pos 0) 2 [] (1 ∷ []) (other ∷ []) [] loopback (1 ∷ []) (λ address name w. w) (holding [] [])
      (holding [] []) refl (inr (2 ∷ [], refl, refl), tt) refl refl refl refl refl
