-- ===== src/DnsSd.antt =====
-- src/bonjour.c and src/cygwin_dnssd.c: the discovery of services over the DNS-SD library, which are
-- alike but for the loading of the library. Messages to stderr, and the memory that browse_callback
-- allocates for resolve_callback, are left out.
use liblxi.Base.{
  ℕ, Bool, true, false, Option, none, some, List, [], ◌∷◌, ℤ, pos, minus_one, is_zero, is_positive,
  if◌then◌else◌, Run, ok, fault, null, dangling, ◌>>=◌, or_fault, Bytes, same_text,
}
use liblxi.Net.{Timeval}
use liblxi.Tcp.{timeval_of_ms}
use liblxi.Discovery.{Info}
use liblxi.Avahi.{unknown}

-- lxi_service_t, without the entry that ends the table.
pub record LxiService : Type 0 where
  pub broadcast_type : Bytes
  pub service_name : Bytes

-- "_lxi._tcp.", "_vxi-11._tcp.", "_scpi-raw._tcp.", "_scpi-telnet._tcp." and "_hislip._tcp.", each with
-- the part of it that names the service.
abbrev pub lxi_services : List LxiService
lxi_services =
    record {
      broadcast_type = 0x5f ∷ 0x6c ∷ 0x78 ∷ 0x69 ∷ 0x2e ∷ 0x5f ∷ 0x74 ∷ 0x63 ∷ 0x70 ∷ 0x2e ∷ [];
      service_name = 0x6c ∷ 0x78 ∷ 0x69 ∷ [];
    }
    ∷ record {
      broadcast_type =
          0x5f ∷ 0x76 ∷ 0x78 ∷ 0x69 ∷ 0x2d ∷ 0x31 ∷ 0x31 ∷ 0x2e ∷ 0x5f ∷ 0x74 ∷ 0x63 ∷ 0x70 ∷ 0x2e
          ∷ [];
      service_name = 0x76 ∷ 0x78 ∷ 0x69 ∷ 0x2d ∷ 0x31 ∷ 0x31 ∷ [];
    }
    ∷ record {
      broadcast_type =
          0x5f ∷ 0x73 ∷ 0x63 ∷ 0x70 ∷ 0x69 ∷ 0x2d ∷ 0x72 ∷ 0x61 ∷ 0x77 ∷ 0x2e ∷ 0x5f ∷ 0x74 ∷ 0x63
          ∷ 0x70 ∷ 0x2e ∷ [];
      service_name = 0x73 ∷ 0x63 ∷ 0x70 ∷ 0x69 ∷ 0x2d ∷ 0x72 ∷ 0x61 ∷ 0x77 ∷ [];
    }
    ∷ record {
      broadcast_type =
          0x5f ∷ 0x73 ∷ 0x63 ∷ 0x70 ∷ 0x69 ∷ 0x2d ∷ 0x74 ∷ 0x65 ∷ 0x6c ∷ 0x6e ∷ 0x65 ∷ 0x74 ∷ 0x2e
          ∷ 0x5f ∷ 0x74 ∷ 0x63 ∷ 0x70 ∷ 0x2e ∷ [];
      service_name =
          0x73 ∷ 0x63 ∷ 0x70 ∷ 0x69 ∷ 0x2d ∷ 0x74 ∷ 0x65 ∷ 0x6c ∷ 0x6e ∷ 0x65 ∷ 0x74 ∷ [];
    }
    ∷ record {
      broadcast_type =
          0x5f ∷ 0x68 ∷ 0x69 ∷ 0x73 ∷ 0x6c ∷ 0x69 ∷ 0x70 ∷ 0x2e ∷ 0x5f ∷ 0x74 ∷ 0x63 ∷ 0x70 ∷ 0x2e
          ∷ [];
      service_name = 0x68 ∷ 0x69 ∷ 0x73 ∷ 0x6c ∷ 0x69 ∷ 0x70 ∷ [];
    }
    ∷ []

-- What the library tells resolve_callback and browse_callback. An error of 0 is
-- kDNSServiceErr_NoError.
pub record Resolution : Type 0 where
  pub error_code : ℤ
  pub hosttarget : Bytes
  pub port : ℕ

pub record Browsed : Type 0 where
  pub error_code : ℤ
  pub interface_index : ℕ
  pub service_name : Bytes
  pub regtype : Bytes
  pub reply_domain : Bytes

-- The functions that src/cygwin_dnssd.c looks up.
pub data Symbol : Type 0 where
  service_browse service_resolve process_result ref_deallocate ref_sock_fd : Symbol

-- The dynamic linker.
pub record Linker (W : Type 0) : Type 0 where
  pub dlopen : W → Option ℕ × W
  pub dlsym : ℕ → Symbol → Bool
  pub dlclose : ℕ → W → W

-- What resolve_callback uses of browse_data_t.
pub record BrowseData : Type 0 where
  pub servicename : Bytes
  pub regtype : Bytes

-- The calls of the DNS-SD library, which runs the callbacks that it has been given in
-- `process_result`, and of the C library. References are numbers; `getaddrinfo` gives the addresses'
-- texts, or `none` where it fails and leaves its list unset; `select` also gives what it makes of
-- the timeout; `unset` is what the stack holds where an address should be.
pub record DnsSdLib (W : Type 0) : Type 0 where
  pub service_browse : Bytes → (Browsed → W → Run W) → W → ℤ × ℕ × W
  pub service_resolve : Browsed → (Resolution → W → Run W) → W → ℤ × ℕ × W
  pub process_result : ℕ → W → Run (ℤ × W)
  pub ref_sock_fd : ℕ → ℤ
  pub ref_deallocate : ℕ → W → W
  pub select : ℤ → Timeval → W → ℤ × Timeval × W
  pub getaddrinfo : Bytes → ℕ → W → Option (List Bytes) × W
  pub ntohs : ℕ → ℕ
  pub if_indextoname : ℕ → Bytes
  pub malloc_browse_data : W → Bool × W
  pub unset : Bytes

-- The search of resolve_callback for the name of a service type.
unfoldable pub service_name_of : Bytes → List LxiService → Bytes
service_name_of regtype [] = unknown
service_name_of regtype (s ∷ rest) =
    if same_text regtype s.broadcast_type then s.service_name else service_name_of regtype rest

module _ {W : Type 0} (lib : DnsSdLib W) (info : Info W) where
  -- The address's text. A list that getaddrinfo() has not set is read all the same.
  unfoldable pub resolve_ip_address : Bytes → ℕ → W → Run (Bytes × W)
  resolve_ip_address hostname port w =
      let (servinfo, w1) = lib.getaddrinfo hostname port w in
      elim servinfo [ none ↦ fault dangling | some addresses ↦ ok (first_of addresses, w1) ]
    where
      first_of : List Bytes → Bytes
      first_of [] = lib.unset
      first_of (address ∷ rest) = address

  -- The service callback is called without a test for NULL.
  unfoldable pub resolve_callback : BrowseData → Resolution → W → Run W
  resolve_callback browse_data found w =
      let report = do
        (ip_address, w1) ← resolve_ip_address found.hosttarget found.port w
        callback ← or_fault info.service null
        ok (
            callback ip_address browse_data.servicename
              (service_name_of browse_data.regtype lxi_services) (lib.ntohs found.port) w1)
      in if is_zero found.error_code then report else ok w

  -- browse_callback from DNSServiceResolve() on. The reference is not given back on an error.
  unfoldable pub resolve_service : Browsed → W → Run W
  resolve_service found w = do
    let browse_data : BrowseData = record {
      servicename = found.service_name;
      regtype = found.regtype;
    }
    let (error, resolve, w1) = lib.service_resolve found (resolve_callback browse_data) w
    let wait = do
      (error1, w2) ← lib.process_result resolve w1
      if is_zero error1 then ok (lib.ref_deallocate resolve w2) else ok w2
    if is_zero error then wait else ok w1

  -- The broadcast callback is called without a test for NULL.
  unfoldable pub browse_callback : Browsed → W → Run W
  browse_callback found w =
      let go_on = do
        callback ← or_fault info.broadcast null
        let w1 = callback found.service_name (lib.if_indextoname found.interface_index) w
        let (allocated, w2) = lib.malloc_browse_data w1
        if allocated then resolve_service found w2 else ok w2
      in if is_zero found.error_code then go_on else ok w

  -- The loop of browse_lxi_services, with the last reference that was made, which is the only one
  -- given back, and that only at the end of the table.
  unfoldable pub browse_loop : List LxiService → Option ℕ → Timeval → W → Run W
  browse_loop [] none timeout w = fault dangling
  browse_loop [] (some service) timeout w = ok (lib.ref_deallocate service w)
  browse_loop (s ∷ rest) last timeout w = do
    let (error, service, w1) = lib.service_browse s.broadcast_type browse_callback w
    let (result, timeout1, w2) = lib.select (lib.ref_sock_fd service) timeout w1
    let timed_out = browse_loop rest (some service) timeout1 w2
    let ready = do
      (error1, w3) ← lib.process_result service w2
      let next = browse_loop rest (some service) timeout1 w3
      if is_zero error1 then next else ok w3
    if is_zero error
        then (if is_positive result then ready else (if is_zero result then timed_out else ok w2))
        else ok w1

  unfoldable pub browse_lxi_services : ℤ → W → Run W
  browse_lxi_services timeout_ms w = browse_loop lxi_services none (timeval_of_ms timeout_ms) w

  unfoldable pub bonjour_discover : ℤ → W → Run W
  bonjour_discover timeout_ms w = browse_lxi_services timeout_ms w

-- Whether all five functions are found, in the order of the source.
unfoldable pub all_found : {W : Type 0} → Linker W → ℕ → List Symbol → Bool
all_found linker dll [] = true
all_found linker dll (symbol ∷ rest) =
    if linker.dlsym dll symbol then all_found linker dll rest else false

-- load_cygwin_dnssd_dll, with the handle hDnssdDLL; a library that lacks a function is closed.
unfoldable pub load_cygwin_dnssd_dll : {W : Type 0} → Linker W → Option ℕ → W → ℤ × Option ℕ × W
load_cygwin_dnssd_dll linker (some dll) w = (pos 0, some dll, w)
load_cygwin_dnssd_dll linker none w =
    let (opened, w1) = linker.dlopen w in
    elim opened [
      | none ↦ (minus_one, none, w1)
      | some dll ↦
          if all_found linker dll
            (service_browse ∷ service_resolve ∷ process_result ∷ ref_deallocate ∷ ref_sock_fd ∷ [])
          then (pos 0, some dll, w1)
          else (minus_one, none, linker.dlclose dll w1)
    ]

unfoldable pub cygwin_dnssd_discover :
    {W : Type 0} → DnsSdLib W → Linker W → Info W → ℤ → Option ℕ → W → Run (ℤ × Option ℕ × W)
cygwin_dnssd_discover lib linker info timeout_ms dll w = do
  let (status, dll1, w1) = load_cygwin_dnssd_dll linker dll w
  let search = do w2 ← browse_lxi_services lib info timeout_ms w1; ok (pos 0, dll1, w2)
  if is_zero status then search else ok (minus_one, dll1, w1)
