-- ===== src/Discovery/Interfaces.antt =====
-- vxi11_discover and vxi11_discover_if of src/vxi11.c: the interfaces that they ask on.
use liblxi.Base.{
  ℕ, ◌≡◌, refl, ◌⊎◌, inl, inr, true, false, Option, none, some, List, [], ◌∷◌, ◌++◌, ℤ, pos, Run,
  ok, fault, null, ◌>>=◌, Bool-cases, Option-cases, Bytes, same_text, if◌then◌else◌,
}
use liblxi.Net.{Net}
use liblxi.Xdr.{Xdr}
use liblxi.Rpc.{Rpc, Threads}
use liblxi.Vxi11.{Vxi11Data}
use liblxi.Discovery.{Info, Xml, Frame, IfAddrs, Udp}
use liblxi.Discovery.Broadcast.{
  is_inet, notify_named, discover_devices, discover_on, discover_all, vxi11_discover, announce,
  discover_named, discover_if, discover_all_if, vxi11_discover_if,
}

-- The interfaces that broadcasts are sent on: their names and broadcast addresses.
abbrev pub usable : List IfAddrs → List (Option Bytes × ℕ)
usable [] = []
usable (ifap ∷ rest) = elim ifap.ifa_broadaddr [
  | none ↦ usable rest
  | some (family, address) ↦
      if is_inet ifap.ifa_addr then (ifap.ifa_name, address) ∷ usable rest else usable rest
]

-- An interface that vxi11_discover_if passes over: another family, or another name.
abbrev pub IsOther : Bytes → IfAddrs → Type 0
IsOther ifname ifap =
    (is_inet ifap.ifa_addr ≡ false)
    ⊎ ((name : Bytes) × (ifap.ifa_name ≡ some name) × (same_text name ifname ≡ false))

abbrev pub AllOther : Bytes → List IfAddrs → Type 0
AllOther ifname [] = Unit {0}
AllOther ifname (ifap ∷ rest) = IsOther ifname ifap × AllOther ifname rest

forget_status :
    {W : Type 0} (m : Run (ℤ × W)) (g h : W → Run W)
    → ((w : W) → g w ≡ h w)
    → (do
      w2 ← do (status, w1) ← m; ok w1
      g w2)
      ≡ (do (status, w1) ← m; h w1)
forget_status (ok (status, w)) g h same = same w
forget_status (fault why) g h same = refl

module _ {S W Doc Node : Type 0} (x : Xdr S) (rpc : Rpc S W) (threads : Threads Vxi11Data W)
    (net : Net W) (udp : Udp W) (xml : Xml Doc Node) (rounds : ℕ) (frame : Frame) (info : Info W)
    (timeout : ℤ) (f : ℕ) (id : Bytes) where
  -- Announcing an interface and asking on it, for one after the other.
  unfoldable pub ask_each : List (Option Bytes × ℕ) → W → Run W
  ask_each [] w = ok w
  ask_each ((name, address) ∷ rest) w = do
    (status, w1) ←
        discover_devices x rpc threads net udp xml rounds frame info timeout f id (some address)
          (notify_named info.broadcast (udp.inet_ntoa address) name w)
    ask_each rest w1

  discover_all-usable :
      (ifs : List IfAddrs) (w : W)
      → discover_all x rpc threads net udp xml rounds frame info timeout f id ifs w
        ≡ ask_each (usable ifs) w
  unfolding discover_all ask_each discover_on
  discover_all-usable [] w = refl
  discover_all-usable (ifap ∷ rest) w = elim (Bool-cases (is_inet ifap.ifa_addr)) [
    | inr other ↦ elim (Option-cases ifap.ifa_broadaddr) [
      | inl bare ↦ rw (other, bare) (discover_all-usable rest w)
      | inr ((family, address), addressed) ↦ rw (addressed, other) (discover_all-usable rest w)
    ]
    | inl inet ↦ elim (Option-cases ifap.ifa_broadaddr) [
      | inl bare ↦ rw (inet, bare) (discover_all-usable rest w)
      | inr ((family, address), addressed) ↦
          rw (addressed, inet) (forget_status _ _ _ (discover_all-usable rest))
    ]
  ]

  -- vxi11_discover announces the AF_INET interfaces that have a broadcast address, and asks on each
  -- of them, in the order of the system's list and whatever the outcomes; then it frees the list
  -- and returns 0.
  pub vxi11_discover-usable :
      (w w1 : W) (ifs : List IfAddrs)
      → udp.getifaddrs w ≡ (some ifs, w1)
      → vxi11_discover x rpc threads net udp xml rounds frame info timeout f id w
        ≡ (do w2 ← ask_each (usable ifs) w1; ok (pos 0, udp.freeifaddrs ifs w2))
  unfolding vxi11_discover
  vxi11_discover-usable w w1 ifs e = rw (e, vxi11_discover, e, discover_all-usable ifs w1) refl

  discover_if-other :
      (ifname : Bytes) (ifap : IfAddrs) (status : ℤ) (w : W)
      → IsOther ifname ifap
      → discover_if x rpc threads net udp xml rounds frame info timeout f id ifname ifap status w
        ≡ ok (status, w)
  unfolding discover_if
  discover_if-other ifname ifap status w (inl e) = rw e refl
  discover_if-other ifname ifap status w (inr (name, named, other)) =
      elim (Bool-cases (is_inet ifap.ifa_addr)) [
        | inl e ↦ rw (e, named, other) refl
        | inr e ↦ rw e refl
      ]

  skip_other :
      (ifname : Bytes) (before after : List IfAddrs) (status : ℤ) (w : W)
      → AllOther ifname before
      → discover_all_if x rpc threads net udp xml rounds frame info timeout f id ifname
          (before ++ after)
          status
          w
        ≡ discover_all_if x rpc threads net udp xml rounds frame info timeout f id ifname after
            status w
  unfolding discover_all_if
  skip_other ifname [] after status w all = refl
  skip_other ifname (ifap ∷ before) after status w (other, all) =
      rw (discover_if-other ifname ifap status w other)
        (skip_other ifname before after status w all)

  -- Where an interface other than the first ones is the one that is asked for and has no broadcast
  -- address, and a broadcast callback is given, vxi11_discover_if reads behind NULL.
  pub vxi11_discover_if-null :
      (ifname : Bytes) (before after : List IfAddrs) (ifap : IfAddrs) (name : Bytes)
      (callback : Bytes → Bytes → W → W) (w w1 : W)
      → udp.getifaddrs w ≡ (some (before ++ (ifap ∷ after)), w1)
      → AllOther ifname before
      → is_inet ifap.ifa_addr ≡ true
      → ifap.ifa_name ≡ some name
      → same_text name ifname ≡ true
      → ifap.ifa_broadaddr ≡ none
      → info.broadcast ≡ some callback
      → vxi11_discover_if x rpc threads net udp xml rounds frame info timeout f id ifname w
        ≡ fault null
  unfolding vxi11_discover_if discover_all_if discover_if discover_named announce
  vxi11_discover_if-null ifname before after ifap name callback w w1 e all inet named same bare
        given =
      rw
        (
          e,
          vxi11_discover_if,
          e,
          skip_other ifname before (ifap ∷ after) (pos 0) w1 all,
          inet,
          named,
          same,
          given,
          bare,
        )
        refl
