-- ===== src/Avahi.antt =====
-- src/avahi.c: the discovery of services over mDNS, on the Avahi library. Handles are numbers, and
-- the assertions that a callback's handle is not NULL hold of each. Messages to stderr are left out.
pub mod Browsers
pub mod Discover
use liblxi.Base.{
  ℕ, zero, suc, Bool, true, false, Option, none, some, List, [], ◌∷◌, ℤ, pos, negsuc, minus_one,
  ltb, if◌then◌else◌, length, get_elem?, set, Run, ok, fault, bounds, null, ◌>>=◌, or_fault, Bytes,
  same_text,
}
use liblxi.Discovery.{Info}

-- AvahiClientState: only AVAHI_CLIENT_FAILURE is told apart.
pub data ClientState : Type 0 where
  client_failure other_state : ClientState

pub data BrowserEvent : Type 0 where
  browser_new browser_cache_exhausted browser_all_for_now browser_failure browser_remove :
      BrowserEvent

pub data ResolverEvent : Type 0 where
  resolver_found resolver_failure : ResolverEvent

-- What a browser tells of a service.
pub record Service : Type 0 where
  pub interface : ℤ
  pub protocol : ℤ
  pub name : Bytes
  pub type : Bytes
  pub domain : Bytes

-- What a resolver tells of a service; the address is its text.
pub record Resolved : Type 0 where
  pub name : Bytes
  pub type : Bytes
  pub address : Bytes
  pub port : ℕ

-- The calls of the Avahi library, over a state `W` of the world. It keeps the callbacks that it is
-- given, and calls them in its loop.
pub record AvahiLib (W : Type 0) : Type 0 where
  pub simple_poll_new : W → Option ℕ × W
  pub simple_poll_get : ℕ → Option ℕ
  pub simple_poll_quit : ℕ → W → W
  pub simple_poll_loop : ℕ → W → W
  pub simple_poll_free : ℕ → W → W
  pub client_new : ℕ → (ClientState → W → W) → W → Option ℕ × W
  pub client_free : ℕ → W → W
  pub service_browser_new : ℕ → Bytes → (BrowserEvent → Service → W → W) → W → Option ℕ × W
  pub service_browser_free : ℕ → W → W
  pub service_resolver_new : ℕ → Service → (ℕ → ResolverEvent → Resolved → W → W) → W → Option ℕ × W
  pub service_resolver_free : ℕ → W → W
  pub timeout_new : ℕ → ℤ → (W → W) → W → W

-- The variables of the file: `sb` has ten entries, and `none` is NULL.
pub record Statics : Type 0 where
  pub sb : List (Option ℕ)
  pub count : ℤ

-- "_lxi._tcp"
abbrev pub lxi_tcp : Bytes
lxi_tcp = 0x5f ∷ 0x6c ∷ 0x78 ∷ 0x69 ∷ 0x2e ∷ 0x5f ∷ 0x74 ∷ 0x63 ∷ 0x70 ∷ []

-- "_vxi-11._tcp"
abbrev pub vxi_11_tcp : Bytes
vxi_11_tcp = 0x5f ∷ 0x76 ∷ 0x78 ∷ 0x69 ∷ 0x2d ∷ 0x31 ∷ 0x31 ∷ 0x2e ∷ 0x5f ∷ 0x74 ∷ 0x63 ∷ 0x70 ∷ []

-- "_scpi-raw._tcp"
abbrev pub scpi_raw_tcp : Bytes
scpi_raw_tcp =
    0x5f ∷ 0x73 ∷ 0x63 ∷ 0x70 ∷ 0x69 ∷ 0x2d ∷ 0x72 ∷ 0x61 ∷ 0x77 ∷ 0x2e ∷ 0x5f ∷ 0x74 ∷ 0x63 ∷ 0x70
    ∷ []

-- "_scpi-telnet._tcp"
abbrev pub scpi_telnet_tcp : Bytes
scpi_telnet_tcp =
    0x5f ∷ 0x73 ∷ 0x63 ∷ 0x70 ∷ 0x69 ∷ 0x2d ∷ 0x74 ∷ 0x65 ∷ 0x6c ∷ 0x6e ∷ 0x65 ∷ 0x74 ∷ 0x2e ∷ 0x5f
    ∷ 0x74 ∷ 0x63 ∷ 0x70 ∷ []

-- "_hislip._tcp"
abbrev pub hislip_tcp : Bytes
hislip_tcp = 0x5f ∷ 0x68 ∷ 0x69 ∷ 0x73 ∷ 0x6c ∷ 0x69 ∷ 0x70 ∷ 0x2e ∷ 0x5f ∷ 0x74 ∷ 0x63 ∷ 0x70 ∷ []

abbrev pub services : List Bytes
services = lxi_tcp ∷ vxi_11_tcp ∷ scpi_raw_tcp ∷ scpi_telnet_tcp ∷ hislip_tcp ∷ []

-- "Unknown"
abbrev pub unknown : Bytes
unknown = 0x55 ∷ 0x6e ∷ 0x6b ∷ 0x6e ∷ 0x6f ∷ 0x77 ∷ 0x6e ∷ []

-- The service type as avahi_resolve_callback prints it.
unfoldable pub service_type : Bytes → Bytes
service_type type =
    if same_text type lxi_tcp
    then 0x6c ∷ 0x78 ∷ 0x69 ∷ []
    else (if same_text type vxi_11_tcp
        then 0x76 ∷ 0x78 ∷ 0x69 ∷ 0x2d ∷ 0x31 ∷ 0x31 ∷ []
        else (if same_text type scpi_raw_tcp
            then 0x73 ∷ 0x63 ∷ 0x70 ∷ 0x69 ∷ 0x2d ∷ 0x72 ∷ 0x61 ∷ 0x77 ∷ []
            else (if same_text type scpi_telnet_tcp
                then 0x73 ∷ 0x63 ∷ 0x70 ∷ 0x69 ∷ 0x2d ∷ 0x74 ∷ 0x65 ∷ 0x6c ∷ 0x6e ∷ 0x65 ∷ 0x74 ∷ []
                else (if same_text type hislip_tcp
                    then 0x68 ∷ 0x69 ∷ 0x73 ∷ 0x6c ∷ 0x69 ∷ 0x70 ∷ []
                    else unknown))))

-- `sb[count++] = browser`
unfoldable pub store_browser : Statics → Option ℕ → Run Statics
store_browser st browser = elim st.count [
  | negsuc n ↦ fault bounds
  | pos n ↦
      if ltb n (length st.sb)
      then ok (record { sb = set st.sb n browser; count = pos (suc n) })
      else fault bounds
]

module _ {W : Type 0} (lib : AvahiLib W) (info : Info W) where
  unfoldable pub avahi_resolve_callback : ℕ → ResolverEvent → Resolved → W → W
  avahi_resolve_callback r resolver_failure found w = lib.service_resolver_free r w
  avahi_resolve_callback r resolver_found found w = elim info.service [
    | none ↦ lib.service_resolver_free r w
    | some callback ↦
        lib.service_resolver_free r
          (callback found.address found.name (service_type found.type) found.port w)
  ]

  unfoldable pub avahi_browse_callback : (poll client : ℕ) → BrowserEvent → Service → W → W
  avahi_browse_callback poll client browser_failure service w = lib.simple_poll_quit poll w
  avahi_browse_callback poll client browser_new service w =
      let (resolver, w1) = lib.service_resolver_new client service avahi_resolve_callback w in w1
  avahi_browse_callback poll client browser_remove service w = w
  avahi_browse_callback poll client browser_all_for_now service w = w
  avahi_browse_callback poll client browser_cache_exhausted service w = w

  unfoldable pub avahi_client_callback : ℕ → ClientState → W → W
  avahi_client_callback poll client_failure w = lib.simple_poll_quit poll w
  avahi_client_callback poll other_state w = w

  unfoldable pub avahi_terminate : ℕ → W → W
  avahi_terminate poll w = lib.simple_poll_quit poll w

  -- The status is 1 when the browser could not be created, which is stored all the same.
  unfoldable pub create_service_browser : ℕ → ℕ → Bytes → Statics → W → Run (ℕ × Statics × W)
  create_service_browser poll client service st w = do
    let (browser, w1) = lib.service_browser_new client service (avahi_browse_callback poll client) w
    st1 ← store_browser st browser
    ok (elim browser [ none ↦ 1 | some b ↦ 0 ], st1, w1)

  -- The browsers of avahi_discover, up to the first failure.
  unfoldable pub create_browsers : ℕ → ℕ → List Bytes → Statics → W → Run (Bool × Statics × W)
  create_browsers poll client [] st w = ok (true, st, w)
  create_browsers poll client (service ∷ rest) st w = do
    (status, st1, w1) ← create_service_browser poll client service st w
    elim status [ zero ↦ create_browsers poll client rest st1 w1 | suc n ↦ ok (false, st1, w1) ]

  -- `while (--count >= 0) avahi_service_browser_free(sb[count]);` with a count that is not negative.
  unfoldable pub free_browsers : ℕ → Statics → W → Run (Statics × W)
  free_browsers zero st w = ok (record st { count = minus_one }, w)
  free_browsers (suc n) st w = do
    entry ← or_fault (get_elem? st.sb n) bounds
    browser ← or_fault entry null
    free_browsers n st (lib.service_browser_free browser w)

  -- The label fail_sb, with the frees of the client and the poll behind it.
  unfoldable pub release : ℕ → ℕ → ℤ → Statics → W → Run (ℤ × Statics × W)
  release poll client status st w = do
    (st1, w1) ← elim st.count [
      | pos n ↦ free_browsers n st w
      | negsuc n ↦ ok (record st { count = negsuc (suc n) }, w)
    ]
    ok (status, st1, lib.simple_poll_free poll (lib.client_free client w1))

  -- avahi_discover with a client, from its browsers on.
  unfoldable pub browse : (poll api client : ℕ) → ℤ → Statics → W → Run (ℤ × Statics × W)
  browse poll api client timeout st w = do
    (created, st1, w1) ← create_browsers poll client services st w
    let w2 = lib.timeout_new api timeout (avahi_terminate poll) w1
    let browsed = release poll client (pos 0) st1 (lib.simple_poll_loop poll w2)
    let failed = release poll client (pos 1) st1 w1
    if created then browsed else failed

  unfoldable pub avahi_discover : ℤ → Statics → W → Run (ℤ × Statics × W)
  avahi_discover timeout st w =
      let (poll, w1) = lib.simple_poll_new w in
      elim poll [
        | none ↦ ok (pos 1, st, w1)
        | some p ↦ elim (lib.simple_poll_get p) [
          | none ↦ ok (pos 1, st, lib.simple_poll_free p w1)
          | some api ↦
              let (client, w2) = lib.client_new p (avahi_client_callback p) w1 in
              elim client [
                | none ↦ ok (pos 1, st, lib.simple_poll_free p w2)
                | some c ↦ browse p api c timeout st w2
              ]
        ]
      ]
