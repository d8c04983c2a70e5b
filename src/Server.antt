-- ===== src/Server.antt =====
-- src/vxi11core_svc.c: the dispatch of a VXI-11 server, generated from the protocol's description,
-- and the server's main. Messages to stderr are left out.
pub mod Interface
pub mod Procedures
pub mod Answers
pub mod Refusals
use liblxi.Base.{
  ℕ, ◌+◌, ℤ, is_positive, Bool, true, false, Option, none, some, [], ◌∷◌, ◌==◌, if◌then◌else◌,
}
use liblxi.Xdr.{Xdr, M}
use liblxi.Core.{
  DeviceError, CreateLinkParms, CreateLinkResp, DeviceWriteParms, DeviceWriteResp, DeviceReadParms,
  DeviceReadResp, DeviceReadStbResp, DeviceGenericParms, DeviceRemoteFunc, DeviceEnableSrqParms,
  DeviceLockParms, DeviceDocmdParms, DeviceDocmdResp,
}
use liblxi.Core.Routines.{
  xdr_device_link, xdr_device_error, xdr_create_link_parms, xdr_create_link_resp,
  xdr_device_write_parms, xdr_device_write_resp,
}
use liblxi.Core.Routines.Read.{
  xdr_device_read_parms, xdr_device_read_resp, xdr_device_read_stb_resp,
}
use liblxi.Core.Routines.Control.{
  xdr_device_generic_parms, xdr_device_remote_func, xdr_device_enable_srq_parms,
  xdr_device_lock_parms, xdr_device_docmd_parms, xdr_device_docmd_resp,
}
use liblxi.Client.{
  device_abort, create_link, device_write, device_read, device_readstb, device_trigger,
  device_clear, device_remote, device_local, device_lock, device_unlock, device_enable_srq,
  device_docmd, destroy_link, create_intr_chan, destroy_intr_chan,
}
use liblxi.Vxi11.{device_core, device_core_version}
use liblxi.Server.Interface.{Svc, Device, Registry}

-- A handler returns, or calls exit(1).
pub data Ended (W : Type 0) : Type 0 where
  returned : W → Ended W
  exited : W → Ended W

abbrev pub nullproc : ℕ
nullproc = 0

module _ {S W : Type 0} (svc : Svc S W) where
  -- The reply that follows a call of the implementation.
  unfoldable pub reply : {B : Type 0} → (B → M S B) → ℤ → B → W → W
  reply xdr_result retval result w =
      let (sent, w1) = svc.svc_sendreply xdr_result result w in
      if is_positive retval then (if sent then w1 else svc.svcerr_systemerr w1) else w

  -- A decoded request: the implementation, its reply, and the freeing of argument and result.
  unfoldable pub answer :
      {A B : Type 0}
      → (A → M S A)
      → (B → M S B)
      → (A → W → ℤ × B × W)
      → ((B → M S B) → B → W → Bool × W)
      → A
      → W
      → Ended W
  answer xdr_argument xdr_result local freeresult argument w =
      let (retval, result, w1) = local argument w in
      let w2 = reply xdr_result retval result w1 in
      let (freed, w3) = svc.svc_freeargs xdr_argument argument w2 in
      let (result_freed, w4) = freeresult xdr_result result w3 in
      if freed then returned w4 else exited w3

  -- The common end of both dispatchers, behind the switch. `zeroed` is the argument behind memset().
  unfoldable pub serve :
      {A B : Type 0}
      → (A → M S A)
      → A
      → (B → M S B)
      → (A → W → ℤ × B × W)
      → ((B → M S B) → B → W → Bool × W)
      → W
      → Ended W
  serve xdr_argument zeroed xdr_result local freeresult w =
      let (args, w1) = svc.svc_getargs xdr_argument zeroed w in
      elim args [
        | none ↦ returned (svc.svcerr_decode w1)
        | some argument ↦ answer xdr_argument xdr_result local freeresult argument w1
      ]

  unfoldable pub ping : W → Ended W
  ping w = returned (svc.svc_sendreply svc.xdr_void tt w).1

module _ {S W : Type 0} (x : Xdr S) (svc : Svc S W) (device : Device S W) where
  unfoldable pub device_async_1 : ℕ → W → Ended W
  device_async_1 rq_proc w =
      if rq_proc == nullproc
      then ping svc w
      else (if rq_proc == device_abort
          then serve svc (xdr_device_link x) 0 (xdr_device_error x) device.device_abort_1_svc
              device.device_async_1_freeresult w
          else returned (svc.svcerr_noproc w))

  unfoldable pub device_core_1 : ℕ → W → Ended W
  device_core_1 rq_proc w =
      if rq_proc == nullproc
      then ping svc w
      else (if rq_proc == create_link
          then serve svc (xdr_create_link_parms x)
              (record { client_id = 0; lock_device = 0; lock_timeout = 0; device = [] })
              (xdr_create_link_resp x) device.create_link_1_svc device.device_core_1_freeresult w
          else (if rq_proc == device_write
              then serve svc (xdr_device_write_parms x)
                  (record { lid = 0; io_timeout = 0; lock_timeout = 0; flags = 0; payload = [] })
                  (xdr_device_write_resp x) device.device_write_1_svc
                  device.device_core_1_freeresult w
              else (if rq_proc == device_read
                  then serve svc (xdr_device_read_parms x)
                      (record {
                        lid = 0;
                        request_size = 0;
                        io_timeout = 0;
                        lock_timeout = 0;
                        flags = 0;
                        term_char = 0;
                      })
                      (xdr_device_read_resp x) device.device_read_1_svc
                      device.device_core_1_freeresult w
                  else (if rq_proc == device_readstb
                      then serve svc (xdr_device_generic_parms x)
                          (record { lid = 0; flags = 0; lock_timeout = 0; io_timeout = 0 })
                          (xdr_device_read_stb_resp x) device.device_readstb_1_svc
                          device.device_core_1_freeresult w
                      else (if rq_proc == device_trigger
                          then serve svc (xdr_device_generic_parms x)
                              (record { lid = 0; flags = 0; lock_timeout = 0; io_timeout = 0 })
                              (xdr_device_error x) device.device_trigger_1_svc
                              device.device_core_1_freeresult w
                          else (if rq_proc == device_clear
                              then serve svc (xdr_device_generic_parms x)
                                  (record { lid = 0; flags = 0; lock_timeout = 0; io_timeout = 0 })
                                  (xdr_device_error x) device.device_clear_1_svc
                                  device.device_core_1_freeresult w
                              else (if rq_proc == device_remote
                                  then serve svc (xdr_device_generic_parms x)
                                      (record {
                                        lid = 0;
                                        flags = 0;
                                        lock_timeout = 0;
                                        io_timeout = 0;
                                      })
                                      (xdr_device_error x) device.device_remote_1_svc
                                      device.device_core_1_freeresult w
                                  else (if rq_proc == device_local
                                      then serve svc (xdr_device_generic_parms x)
                                          (record {
                                            lid = 0;
                                            flags = 0;
                                            lock_timeout = 0;
                                            io_timeout = 0;
                                          })
                                          (xdr_device_error x) device.device_local_1_svc
                                          device.device_core_1_freeresult w
                                      else (if rq_proc == device_lock
                                          then serve svc (xdr_device_lock_parms x)
                                              (record { lid = 0; flags = 0; lock_timeout = 0 })
                                              (xdr_device_error x) device.device_lock_1_svc
                                              device.device_core_1_freeresult w
                                          else (if rq_proc == device_unlock
                                              then serve svc (xdr_device_link x) 0
                                                  (xdr_device_error x) device.device_unlock_1_svc
                                                  device.device_core_1_freeresult w
                                              else (if rq_proc == device_enable_srq
                                                  then serve svc (xdr_device_enable_srq_parms x)
                                                      (record { lid = 0; enable = 0; handle = [] })
                                                      (xdr_device_error x)
                                                      device.device_enable_srq_1_svc
                                                      device.device_core_1_freeresult w
                                                  else (if rq_proc == device_docmd
                                                      then serve svc (xdr_device_docmd_parms x)
                                                          (record {
                                                            lid = 0;
                                                            flags = 0;
                                                            io_timeout = 0;
                                                            lock_timeout = 0;
                                                            cmd = 0;
                                                            network_order = 0;
                                                            datasize = 0;
                                                            data_in = [];
                                                          })
                                                          (xdr_device_docmd_resp x)
                                                          device.device_docmd_1_svc
                                                          device.device_core_1_freeresult w
                                                      else (if rq_proc == destroy_link
                                                          then serve svc (xdr_device_link x) 0
                                                            (xdr_device_error x)
                                                            device.destroy_link_1_svc
                                                            device.device_core_1_freeresult w
                                                          else (if rq_proc == create_intr_chan
                                                            then serve svc
                                                            (xdr_device_remote_func x)
                                                            (record {
                                                            host_addr = 0;
                                                            host_port = 0;
                                                            prog_num = 0;
                                                            prog_vers = 0;
                                                            prog_family = 0;
                                                            })
                                                            (xdr_device_error x)
                                                            device.create_intr_chan_1_svc
                                                            device.device_core_1_freeresult w
                                                            else (if rq_proc == destroy_intr_chan
                                                            then serve svc svc.xdr_void tt
                                                            (xdr_device_error x)
                                                            device.destroy_intr_chan_1_svc
                                                            device.device_core_1_freeresult w
                                                            else returned
                                                            (svc.svcerr_noproc w))))))))))))))))

abbrev pub device_async : ℕ
device_async = 0x06_07b0

abbrev pub device_async_version : ℕ
device_async_version = 1

-- Both programs on one transport, or `false` and exit(1) at the first failure.
unfoldable pub register : {W : Type 0} → Registry W → Option ℕ → Bool → W → Bool × W
register registry none tcp w = (false, w)
register registry (some transp) tcp w =
    let (first, w1) = registry.svc_register transp device_async device_async_version tcp w in
    let (second, w2) = registry.svc_register transp device_core device_core_version tcp w1 in
    if first then (second, w2) else (false, w1)

-- main, which ends in exit(1) on every path: the last world.
unfoldable pub main : {W : Type 0} → Registry W → W → W
main registry w =
    let w1 = registry.pmap_unset device_async device_async_version w in
    let w2 = registry.pmap_unset device_core device_core_version w1 in
    let (udp, w3) = registry.svcudp_create w2 in
    let (udp_ready, w4) = register registry udp false w3 in
    let (tcp, w5) = registry.svctcp_create w4 in
    let (tcp_ready, w6) = register registry tcp true w5 in
    if udp_ready then (if tcp_ready then registry.svc_run w6 else w6) else w4
