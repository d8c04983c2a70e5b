-- ===== src/Discover.antt =====
-- lxi_discover and lxi_discover_if of src/lxi.c, and mdns_discover of src/mdns.c. The state is the
-- world's and those of src/avahi.c and src/cygwin_dnssd.c.
use liblxi.Base.{ℕ, ◌≡◌, refl, Option, none, some, ℤ, pos, Run, ok, ◌>>=◌, Bytes}
use liblxi.Net.{Net}
use liblxi.Xdr.{Xdr}
use liblxi.Rpc.{Rpc, Threads}
use liblxi.Vxi11.{Vxi11Data}
use liblxi.Session.{lxi_ok, lxi_error}
use liblxi.Discovery.{Info, Xml, Frame, Udp}
use liblxi.Discovery.Broadcast.{vxi11_discover, vxi11_discover_if}
use liblxi.Avahi.{AvahiLib, Statics, avahi_discover}
use liblxi.DnsSd.{DnsSdLib, Linker, bonjour_discover, cygwin_dnssd_discover}

-- lxi_discover_t, and the other numbers that a caller can pass.
pub data DiscoverType : Type 0 where
  discover_vxi11 discover_mdns : DiscoverType
  other_type : ℤ → DiscoverType

-- What src/mdns.c is compiled for, with the library that its backend uses. bonjour_discover() has no
-- result: the number is what mdns_discover returns in its place.
pub data Build (W : Type 0) : Type 0 where
  have_avahi : AvahiLib W → Build W
  have_bonjour : DnsSdLib W → ℤ → Build W
  have_cygwin_dnssd : DnsSdLib W → Linker W → Build W
  no_backend : Build W

-- The variables of src/avahi.c and of src/cygwin_dnssd.c.
pub record MdnsState : Type 0 where
  pub statics : Statics
  pub dll : Option ℕ

module _ {S W Doc Node : Type 0} (x : Xdr S) (rpc : Rpc S W) (threads : Threads Vxi11Data W)
    (net : Net W) (udp : Udp W) (xml : Xml Doc Node) (rounds : ℕ) (frame : Frame) (build : Build W)
    (f : ℕ) (id : Bytes) (info : Info W) (timeout : ℤ) where
  unfoldable pub mdns_discover : MdnsState → W → Run (ℤ × MdnsState × W)
  mdns_discover st w = elim build [
    | have_avahi lib ↦ do
      (status, statics1, w1) ← avahi_discover lib info timeout st.statics w
      ok (status, record st { statics = statics1 }, w1)
    | have_bonjour lib result ↦ do w1 ← bonjour_discover lib info timeout w; ok (result, st, w1)
    | have_cygwin_dnssd lib linker ↦ do
      (status, dll1, w1) ← cygwin_dnssd_discover lib linker info timeout st.dll w
      ok (status, record st { dll = dll1 }, w1)
    | no_backend ↦ ok (pos 0, st, w)
  ]

  -- What both functions do behind a call of vxi11_discover or vxi11_discover_if.
  unfoldable pub behind_vxi11 : MdnsState → Run (ℤ × W) → Run (ℤ × MdnsState × W)
  behind_vxi11 st called = do (status, w1) ← called; ok (lxi_ok, st, w1)

  unfoldable pub behind_mdns : MdnsState → W → Run (ℤ × MdnsState × W)
  behind_mdns st w = do (status, st1, w1) ← mdns_discover st w; ok (lxi_ok, st1, w1)

  unfoldable pub lxi_discover : DiscoverType → MdnsState → W → Run (ℤ × MdnsState × W)
  lxi_discover discover_vxi11 st w =
      behind_vxi11 st (vxi11_discover x rpc threads net udp xml rounds frame info timeout f id w)
  lxi_discover discover_mdns st w = behind_mdns st w
  lxi_discover (other_type n) st w = ok (lxi_error, st, w)

  -- A name of `none` is NULL.
  unfoldable pub lxi_discover_if :
      Option Bytes → DiscoverType → MdnsState → W → Run (ℤ × MdnsState × W)
  lxi_discover_if none discover_vxi11 st w =
      behind_vxi11 st (vxi11_discover x rpc threads net udp xml rounds frame info timeout f id w)
  lxi_discover_if (some ifname) discover_vxi11 st w =
      behind_vxi11 st
        (vxi11_discover_if x rpc threads net udp xml rounds frame info timeout f id ifname w)
  lxi_discover_if ifname discover_mdns st w = behind_mdns st w
  lxi_discover_if ifname (other_type n) st w = ok (lxi_error, st, w)

  -- lxi_discover is lxi_discover_if without an interface's name.
  pub lxi_discover-lxi_discover_if :
      (type : DiscoverType) (st : MdnsState) (w : W)
      → lxi_discover type st w ≡ lxi_discover_if none type st w
  unfolding lxi_discover lxi_discover_if
  lxi_discover-lxi_discover_if discover_vxi11 st w = refl
  lxi_discover-lxi_discover_if discover_mdns st w = refl
  lxi_discover-lxi_discover_if (other_type n) st w = refl
