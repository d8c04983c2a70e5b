-- ===== src/Client.antt =====
-- src/vxi11core_clnt.c: the client's stubs, one for each procedure of the core and abort channels. A
-- stub returns the status of the call, the object for the results, and the world. The procedure
-- numbers are those of src/vxi11core.h.
use liblxi.Base.{ℕ}
use liblxi.Rpc.{Rpc}
use liblxi.Xdr.{Xdr}
use liblxi.Core.{
  DeviceError, CreateLinkParms, CreateLinkResp, DeviceWriteParms, DeviceWriteResp, DeviceReadParms,
  DeviceReadResp, DeviceReadStbResp, DeviceGenericParms, DeviceRemoteFunc, DeviceEnableSrqParms,
  DeviceLockParms, DeviceDocmdParms, DeviceDocmdResp,
}
use liblxi.Core.Routines.{
  xdr_device_link, xdr_device_error, xdr_create_link_parms, xdr_create_link_resp,
  xdr_device_write_parms, xdr_device_write_resp,
}
use liblxi.Core.Routines.Read.{
  xdr_device_read_parms, xdr_device_read_resp, xdr_device_read_stb_resp,
}
use liblxi.Core.Routines.Control.{
  xdr_device_generic_parms, xdr_device_remote_func, xdr_device_enable_srq_parms,
  xdr_device_lock_parms, xdr_device_docmd_parms, xdr_device_docmd_resp,
}

-- TIMEOUT, in seconds.
abbrev pub timeout_seconds : ℕ
timeout_seconds = 25

abbrev pub device_abort : ℕ
device_abort = 1

abbrev pub create_link : ℕ
create_link = 10

abbrev pub device_write : ℕ
device_write = 11

abbrev pub device_read : ℕ
device_read = 12

abbrev pub device_readstb : ℕ
device_readstb = 13

abbrev pub device_trigger : ℕ
device_trigger = 14

abbrev pub device_clear : ℕ
device_clear = 15

abbrev pub device_remote : ℕ
device_remote = 16

abbrev pub device_local : ℕ
device_local = 17

abbrev pub device_lock : ℕ
device_lock = 18

abbrev pub device_unlock : ℕ
device_unlock = 19

abbrev pub device_enable_srq : ℕ
device_enable_srq = 20

abbrev pub device_docmd : ℕ
device_docmd = 22

abbrev pub destroy_link : ℕ
destroy_link = 23

abbrev pub create_intr_chan : ℕ
create_intr_chan = 25

abbrev pub destroy_intr_chan : ℕ
destroy_intr_chan = 26

module _ {S W : Type 0} (x : Xdr S) (rpc : Rpc S W) where
  unfoldable pub device_abort_1 : ℕ → DeviceError → ℕ → W → ℕ × DeviceError × W
  device_abort_1 argp clnt_res clnt w =
      rpc.clnt_call clnt device_abort (xdr_device_link x) argp (xdr_device_error x) clnt_res
        timeout_seconds w

  unfoldable pub create_link_1 : CreateLinkParms → CreateLinkResp → ℕ → W → ℕ × CreateLinkResp × W
  create_link_1 argp clnt_res clnt w =
      rpc.clnt_call clnt create_link (xdr_create_link_parms x) argp (xdr_create_link_resp x)
        clnt_res timeout_seconds w

  unfoldable pub device_write_1 :
      DeviceWriteParms → DeviceWriteResp → ℕ → W → ℕ × DeviceWriteResp × W
  device_write_1 argp clnt_res clnt w =
      rpc.clnt_call clnt device_write (xdr_device_write_parms x) argp (xdr_device_write_resp x)
        clnt_res timeout_seconds w

  unfoldable pub device_read_1 : DeviceReadParms → DeviceReadResp → ℕ → W → ℕ × DeviceReadResp × W
  device_read_1 argp clnt_res clnt w =
      rpc.clnt_call clnt device_read (xdr_device_read_parms x) argp (xdr_device_read_resp x)
        clnt_res timeout_seconds w

  unfoldable pub device_readstb_1 :
      DeviceGenericParms → DeviceReadStbResp → ℕ → W → ℕ × DeviceReadStbResp × W
  device_readstb_1 argp clnt_res clnt w =
      rpc.clnt_call clnt device_readstb (xdr_device_generic_parms x) argp
        (xdr_device_read_stb_resp x) clnt_res timeout_seconds w

  unfoldable pub device_trigger_1 : DeviceGenericParms → DeviceError → ℕ → W → ℕ × DeviceError × W
  device_trigger_1 argp clnt_res clnt w =
      rpc.clnt_call clnt device_trigger (xdr_device_generic_parms x) argp (xdr_device_error x)
        clnt_res timeout_seconds w

  unfoldable pub device_clear_1 : DeviceGenericParms → DeviceError → ℕ → W → ℕ × DeviceError × W
  device_clear_1 argp clnt_res clnt w =
      rpc.clnt_call clnt device_clear (xdr_device_generic_parms x) argp (xdr_device_error x)
        clnt_res timeout_seconds w

  unfoldable pub device_remote_1 : DeviceGenericParms → DeviceError → ℕ → W → ℕ × DeviceError × W
  device_remote_1 argp clnt_res clnt w =
      rpc.clnt_call clnt device_remote (xdr_device_generic_parms x) argp (xdr_device_error x)
        clnt_res timeout_seconds w

  unfoldable pub device_local_1 : DeviceGenericParms → DeviceError → ℕ → W → ℕ × DeviceError × W
  device_local_1 argp clnt_res clnt w =
      rpc.clnt_call clnt device_local (xdr_device_generic_parms x) argp (xdr_device_error x)
        clnt_res timeout_seconds w

  unfoldable pub device_lock_1 : DeviceLockParms → DeviceError → ℕ → W → ℕ × DeviceError × W
  device_lock_1 argp clnt_res clnt w =
      rpc.clnt_call clnt device_lock (xdr_device_lock_parms x) argp (xdr_device_error x) clnt_res
        timeout_seconds w

  unfoldable pub device_unlock_1 : ℕ → DeviceError → ℕ → W → ℕ × DeviceError × W
  device_unlock_1 argp clnt_res clnt w =
      rpc.clnt_call clnt device_unlock (xdr_device_link x) argp (xdr_device_error x) clnt_res
        timeout_seconds w

  unfoldable pub device_enable_srq_1 :
      DeviceEnableSrqParms → DeviceError → ℕ → W → ℕ × DeviceError × W
  device_enable_srq_1 argp clnt_res clnt w =
      rpc.clnt_call clnt device_enable_srq (xdr_device_enable_srq_parms x) argp (xdr_device_error x)
        clnt_res timeout_seconds w

  unfoldable pub device_docmd_1 :
      DeviceDocmdParms → DeviceDocmdResp → ℕ → W → ℕ × DeviceDocmdResp × W
  device_docmd_1 argp clnt_res clnt w =
      rpc.clnt_call clnt device_docmd (xdr_device_docmd_parms x) argp (xdr_device_docmd_resp x)
        clnt_res timeout_seconds w

  unfoldable pub destroy_link_1 : ℕ → DeviceError → ℕ → W → ℕ × DeviceError × W
  destroy_link_1 argp clnt_res clnt w =
      rpc.clnt_call clnt destroy_link (xdr_device_link x) argp (xdr_device_error x) clnt_res
        timeout_seconds w

  unfoldable pub create_intr_chan_1 : DeviceRemoteFunc → DeviceError → ℕ → W → ℕ × DeviceError × W
  create_intr_chan_1 argp clnt_res clnt w =
      rpc.clnt_call clnt create_intr_chan (xdr_device_remote_func x) argp (xdr_device_error x)
        clnt_res timeout_seconds w

  unfoldable pub destroy_intr_chan_1 : Unit {0} → DeviceError → ℕ → W → ℕ × DeviceError × W
  destroy_intr_chan_1 argp clnt_res clnt w =
      rpc.clnt_call clnt destroy_intr_chan rpc.xdr_void argp (xdr_device_error x) clnt_res
        timeout_seconds w
