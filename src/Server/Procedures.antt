-- ===== src/Server/Procedures.antt =====
-- The procedures of the core channel that src/vxi11core_clnt.c calls and src/vxi11core_svc.c serves,
-- but for destroy_intr_chan, which has no argument: their numbers, messages and routines.
use liblxi.Base.{ℕ, ◌≡◌, refl, [], ℤ, Bytes}
use liblxi.Xdr.{Xdr, M, int}
use liblxi.Core.{
  DeviceError, CreateLinkParms, CreateLinkResp, DeviceWriteParms, DeviceWriteResp, DeviceReadParms,
  DeviceReadResp, DeviceReadStbResp, DeviceGenericParms, DeviceRemoteFunc, DeviceEnableSrqParms,
  DeviceLockParms, DeviceDocmdParms, DeviceDocmdResp,
}
use liblxi.Xdr.Rules.{Observer, XdrLaw, Codes, Fits, be32}
use liblxi.Core.Wire.{
  IsDeviceError, wire_device_error, IsCreateLinkParms, wire_create_link_parms, IsCreateLinkResp,
  wire_create_link_resp, IsDeviceWriteParms, wire_device_write_parms, IsDeviceWriteResp,
  wire_device_write_resp, IsDeviceReadParms, wire_device_read_parms, IsDeviceReadResp,
  wire_device_read_resp, IsDeviceReadStbResp, wire_device_read_stb_resp, IsDeviceGenericParms,
  wire_device_generic_parms, IsDeviceRemoteFunc, wire_device_remote_func, IsDeviceEnableSrqParms,
  wire_device_enable_srq_parms, IsDeviceLockParms, wire_device_lock_parms, IsDeviceDocmdParms,
  wire_device_docmd_parms, IsDeviceDocmdResp, wire_device_docmd_resp,
}
use liblxi.Core.Routines.{
  xdr_device_link, xdr_device_error, xdr_create_link_parms, xdr_create_link_resp,
  xdr_device_write_parms, xdr_device_write_resp,
}
use liblxi.Core.Routines.Read.{
  xdr_device_read_parms, xdr_device_read_resp, xdr_device_read_stb_resp,
}
use liblxi.Core.Routines.Control.{
  xdr_device_generic_parms, xdr_device_remote_func, xdr_device_enable_srq_parms,
  xdr_device_lock_parms, xdr_device_docmd_parms, xdr_device_docmd_resp,
}
use liblxi.Core.Codes.{
  xdr_device_link-Writes, xdr_device_link-Reads, xdr_device_error-Codes,
  xdr_create_link_parms-Codes, xdr_create_link_resp-Codes, xdr_device_write_parms-Codes,
  xdr_device_write_resp-Codes,
}
use liblxi.Core.Codes.Read.{
  xdr_device_read_parms-Codes, xdr_device_read_resp-Codes, xdr_device_read_stb_resp-Codes,
}
use liblxi.Core.Codes.Control.{
  xdr_device_generic_parms-Codes, xdr_device_remote_func-Codes, xdr_device_enable_srq_parms-Codes,
  xdr_device_lock_parms-Codes, xdr_device_docmd_parms-Codes, xdr_device_docmd_resp-Codes,
}
use liblxi.Rpc.{Rpc}
use liblxi.Client.{
  timeout_seconds, create_link, device_write, device_read, device_readstb, device_trigger,
  device_clear, device_remote, device_local, device_lock, device_unlock, device_enable_srq,
  device_docmd, destroy_link, create_intr_chan, create_link_1, device_write_1, device_read_1,
  device_readstb_1, device_trigger_1, device_clear_1, device_remote_1, device_local_1,
  device_lock_1, device_unlock_1, device_enable_srq_1, device_docmd_1, destroy_link_1,
  create_intr_chan_1,
}
use liblxi.Server.Interface.{Device}

pub data Procedure : Type 0 where
  linking writing reading reading_stb triggering clearing going_remote going_local locking unlocking
        enabling_srq commanding unlinking interrupting :
      Procedure

abbrev pub number : Procedure → ℕ
number linking = create_link
number writing = device_write
number reading = device_read
number reading_stb = device_readstb
number triggering = device_trigger
number clearing = device_clear
number going_remote = device_remote
number going_local = device_local
number locking = device_lock
number unlocking = device_unlock
number enabling_srq = device_enable_srq
number commanding = device_docmd
number unlinking = destroy_link
number interrupting = create_intr_chan

abbrev pub Arg : Procedure → Type 0
Arg linking = CreateLinkParms
Arg writing = DeviceWriteParms
Arg reading = DeviceReadParms
Arg reading_stb = DeviceGenericParms
Arg triggering = DeviceGenericParms
Arg clearing = DeviceGenericParms
Arg going_remote = DeviceGenericParms
Arg going_local = DeviceGenericParms
Arg locking = DeviceLockParms
Arg unlocking = ℕ
Arg enabling_srq = DeviceEnableSrqParms
Arg commanding = DeviceDocmdParms
Arg unlinking = ℕ
Arg interrupting = DeviceRemoteFunc

abbrev pub Res : Procedure → Type 0
Res linking = CreateLinkResp
Res writing = DeviceWriteResp
Res reading = DeviceReadResp
Res reading_stb = DeviceReadStbResp
Res triggering = DeviceError
Res clearing = DeviceError
Res going_remote = DeviceError
Res going_local = DeviceError
Res locking = DeviceError
Res unlocking = DeviceError
Res enabling_srq = DeviceError
Res commanding = DeviceDocmdResp
Res unlinking = DeviceError
Res interrupting = DeviceError

abbrev pub IsArg : (p : Procedure) → Arg p → Type 0
IsArg linking = IsCreateLinkParms
IsArg writing = IsDeviceWriteParms
IsArg reading = IsDeviceReadParms
IsArg reading_stb = IsDeviceGenericParms
IsArg triggering = IsDeviceGenericParms
IsArg clearing = IsDeviceGenericParms
IsArg going_remote = IsDeviceGenericParms
IsArg going_local = IsDeviceGenericParms
IsArg locking = IsDeviceLockParms
IsArg unlocking = Fits int
IsArg enabling_srq = IsDeviceEnableSrqParms
IsArg commanding = IsDeviceDocmdParms
IsArg unlinking = Fits int
IsArg interrupting = IsDeviceRemoteFunc

abbrev pub IsRes : (p : Procedure) → Res p → Type 0
IsRes linking = IsCreateLinkResp
IsRes writing = IsDeviceWriteResp
IsRes reading = IsDeviceReadResp
IsRes reading_stb = IsDeviceReadStbResp
IsRes triggering = IsDeviceError
IsRes clearing = IsDeviceError
IsRes going_remote = IsDeviceError
IsRes going_local = IsDeviceError
IsRes locking = IsDeviceError
IsRes unlocking = IsDeviceError
IsRes enabling_srq = IsDeviceError
IsRes commanding = IsDeviceDocmdResp
IsRes unlinking = IsDeviceError
IsRes interrupting = IsDeviceError

abbrev pub wire_arg : (p : Procedure) → Arg p → Bytes
wire_arg linking = wire_create_link_parms
wire_arg writing = wire_device_write_parms
wire_arg reading = wire_device_read_parms
wire_arg reading_stb = wire_device_generic_parms
wire_arg triggering = wire_device_generic_parms
wire_arg clearing = wire_device_generic_parms
wire_arg going_remote = wire_device_generic_parms
wire_arg going_local = wire_device_generic_parms
wire_arg locking = wire_device_lock_parms
wire_arg unlocking = be32
wire_arg enabling_srq = wire_device_enable_srq_parms
wire_arg commanding = wire_device_docmd_parms
wire_arg unlinking = be32
wire_arg interrupting = wire_device_remote_func

abbrev pub wire_res : (p : Procedure) → Res p → Bytes
wire_res linking = wire_create_link_resp
wire_res writing = wire_device_write_resp
wire_res reading = wire_device_read_resp
wire_res reading_stb = wire_device_read_stb_resp
wire_res triggering = wire_device_error
wire_res clearing = wire_device_error
wire_res going_remote = wire_device_error
wire_res going_local = wire_device_error
wire_res locking = wire_device_error
wire_res unlocking = wire_device_error
wire_res enabling_srq = wire_device_error
wire_res commanding = wire_device_docmd_resp
wire_res unlinking = wire_device_error
wire_res interrupting = wire_device_error

-- The object that memset() clears.
abbrev pub zeroed : (p : Procedure) → Arg p
zeroed linking = record { client_id = 0; lock_device = 0; lock_timeout = 0; device = [] }
zeroed writing = record { lid = 0; io_timeout = 0; lock_timeout = 0; flags = 0; payload = [] }
zeroed reading = record {
  lid = 0;
  request_size = 0;
  io_timeout = 0;
  lock_timeout = 0;
  flags = 0;
  term_char = 0;
}
zeroed reading_stb = record { lid = 0; flags = 0; lock_timeout = 0; io_timeout = 0 }
zeroed triggering = record { lid = 0; flags = 0; lock_timeout = 0; io_timeout = 0 }
zeroed clearing = record { lid = 0; flags = 0; lock_timeout = 0; io_timeout = 0 }
zeroed going_remote = record { lid = 0; flags = 0; lock_timeout = 0; io_timeout = 0 }
zeroed going_local = record { lid = 0; flags = 0; lock_timeout = 0; io_timeout = 0 }
zeroed locking = record { lid = 0; flags = 0; lock_timeout = 0 }
zeroed unlocking = 0
zeroed enabling_srq = record { lid = 0; enable = 0; handle = [] }
zeroed commanding = record {
  lid = 0;
  flags = 0;
  io_timeout = 0;
  lock_timeout = 0;
  cmd = 0;
  network_order = 0;
  datasize = 0;
  data_in = [];
}
zeroed unlinking = 0
zeroed interrupting = record {
  host_addr = 0;
  host_port = 0;
  prog_num = 0;
  prog_vers = 0;
  prog_family = 0;
}

module _ {S : Type 0} (x : Xdr S) where
  abbrev pub xdr_arg : (p : Procedure) → Arg p → M S (Arg p)
  xdr_arg linking = xdr_create_link_parms x
  xdr_arg writing = xdr_device_write_parms x
  xdr_arg reading = xdr_device_read_parms x
  xdr_arg reading_stb = xdr_device_generic_parms x
  xdr_arg triggering = xdr_device_generic_parms x
  xdr_arg clearing = xdr_device_generic_parms x
  xdr_arg going_remote = xdr_device_generic_parms x
  xdr_arg going_local = xdr_device_generic_parms x
  xdr_arg locking = xdr_device_lock_parms x
  xdr_arg unlocking = xdr_device_link x
  xdr_arg enabling_srq = xdr_device_enable_srq_parms x
  xdr_arg commanding = xdr_device_docmd_parms x
  xdr_arg unlinking = xdr_device_link x
  xdr_arg interrupting = xdr_device_remote_func x

  abbrev pub xdr_res : (p : Procedure) → Res p → M S (Res p)
  xdr_res linking = xdr_create_link_resp x
  xdr_res writing = xdr_device_write_resp x
  xdr_res reading = xdr_device_read_resp x
  xdr_res reading_stb = xdr_device_read_stb_resp x
  xdr_res triggering = xdr_device_error x
  xdr_res clearing = xdr_device_error x
  xdr_res going_remote = xdr_device_error x
  xdr_res going_local = xdr_device_error x
  xdr_res locking = xdr_device_error x
  xdr_res unlocking = xdr_device_error x
  xdr_res enabling_srq = xdr_device_error x
  xdr_res commanding = xdr_device_docmd_resp x
  xdr_res unlinking = xdr_device_error x
  xdr_res interrupting = xdr_device_error x

module _ {S : Type 0} (x : Xdr S) (obs : Observer S) (law : XdrLaw x obs) where
  link-Codes : Codes x obs (xdr_device_link x) be32 (Fits int)
  link-Codes = record {
    writes = xdr_device_link-Writes x obs law;
    reads = xdr_device_link-Reads x obs law;
  }

  pub xdr_arg-Codes : (p : Procedure) → Codes x obs (xdr_arg x p) (wire_arg p) (IsArg p)
  xdr_arg-Codes linking = xdr_create_link_parms-Codes x obs law
  xdr_arg-Codes writing = xdr_device_write_parms-Codes x obs law
  xdr_arg-Codes reading = xdr_device_read_parms-Codes x obs law
  xdr_arg-Codes reading_stb = xdr_device_generic_parms-Codes x obs law
  xdr_arg-Codes triggering = xdr_device_generic_parms-Codes x obs law
  xdr_arg-Codes clearing = xdr_device_generic_parms-Codes x obs law
  xdr_arg-Codes going_remote = xdr_device_generic_parms-Codes x obs law
  xdr_arg-Codes going_local = xdr_device_generic_parms-Codes x obs law
  xdr_arg-Codes locking = xdr_device_lock_parms-Codes x obs law
  xdr_arg-Codes unlocking = link-Codes
  xdr_arg-Codes enabling_srq = xdr_device_enable_srq_parms-Codes x obs law
  xdr_arg-Codes commanding = xdr_device_docmd_parms-Codes x obs law
  xdr_arg-Codes unlinking = link-Codes
  xdr_arg-Codes interrupting = xdr_device_remote_func-Codes x obs law

  pub xdr_res-Codes : (p : Procedure) → Codes x obs (xdr_res x p) (wire_res p) (IsRes p)
  xdr_res-Codes linking = xdr_create_link_resp-Codes x obs law
  xdr_res-Codes writing = xdr_device_write_resp-Codes x obs law
  xdr_res-Codes reading = xdr_device_read_resp-Codes x obs law
  xdr_res-Codes reading_stb = xdr_device_read_stb_resp-Codes x obs law
  xdr_res-Codes triggering = xdr_device_error-Codes x obs law
  xdr_res-Codes clearing = xdr_device_error-Codes x obs law
  xdr_res-Codes going_remote = xdr_device_error-Codes x obs law
  xdr_res-Codes going_local = xdr_device_error-Codes x obs law
  xdr_res-Codes locking = xdr_device_error-Codes x obs law
  xdr_res-Codes unlocking = xdr_device_error-Codes x obs law
  xdr_res-Codes enabling_srq = xdr_device_error-Codes x obs law
  xdr_res-Codes commanding = xdr_device_docmd_resp-Codes x obs law
  xdr_res-Codes unlinking = xdr_device_error-Codes x obs law
  xdr_res-Codes interrupting = xdr_device_error-Codes x obs law

  -- On a stream that keeps to the XDR standard, for each of the 14 procedures that have an argument,
  -- the routines of its argument and of its result encode each valid object in its wire form, the
  -- fields in the order of the protocol's description, and decode that form over any old object,
  -- whether the stream gives an inline window or not.
  pub procedure-Codes :
      (p : Procedure)
      → Codes x obs (xdr_arg x p) (wire_arg p) (IsArg p)
        × Codes x obs (xdr_res x p) (wire_res p) (IsRes p)
  procedure-Codes p = (xdr_arg-Codes p, xdr_res-Codes p)

-- The function of an implementation that serves a procedure.
abbrev pub local : {S W : Type 0} → Device S W → (p : Procedure) → Arg p → W → ℤ × Res p × W
local device linking = device.create_link_1_svc
local device writing = device.device_write_1_svc
local device reading = device.device_read_1_svc
local device reading_stb = device.device_readstb_1_svc
local device triggering = device.device_trigger_1_svc
local device clearing = device.device_clear_1_svc
local device going_remote = device.device_remote_1_svc
local device going_local = device.device_local_1_svc
local device locking = device.device_lock_1_svc
local device unlocking = device.device_unlock_1_svc
local device enabling_srq = device.device_enable_srq_1_svc
local device commanding = device.device_docmd_1_svc
local device unlinking = device.destroy_link_1_svc
local device interrupting = device.create_intr_chan_1_svc

-- The client's stub for a procedure.
module _ {S W : Type 0} (x : Xdr S) (rpc : Rpc S W) where
  abbrev pub stub : (p : Procedure) → Arg p → Res p → ℕ → W → ℕ × Res p × W
  stub linking = create_link_1 x rpc
  stub writing = device_write_1 x rpc
  stub reading = device_read_1 x rpc
  stub reading_stb = device_readstb_1 x rpc
  stub triggering = device_trigger_1 x rpc
  stub clearing = device_clear_1 x rpc
  stub going_remote = device_remote_1 x rpc
  stub going_local = device_local_1 x rpc
  stub locking = device_lock_1 x rpc
  stub unlocking = device_unlock_1 x rpc
  stub enabling_srq = device_enable_srq_1 x rpc
  stub commanding = device_docmd_1 x rpc
  stub unlinking = destroy_link_1 x rpc
  stub interrupting = create_intr_chan_1 x rpc

  -- Each stub calls the procedure's number with the routines of its messages.
  pub stub_calls :
      (p : Procedure) (argp : Arg p) (clnt_res : Res p) (clnt : ℕ) (w : W)
      → stub p argp clnt_res clnt w
        ≡ rpc.clnt_call clnt (number p) (xdr_arg x p) argp (xdr_res x p) clnt_res timeout_seconds w
  unfolding create_link_1 device_write_1 device_read_1 device_readstb_1 device_trigger_1
      device_clear_1 device_remote_1 device_local_1 device_lock_1 device_unlock_1
      device_enable_srq_1 device_docmd_1 destroy_link_1 create_intr_chan_1
  stub_calls linking argp clnt_res clnt w = refl
  stub_calls writing argp clnt_res clnt w = refl
  stub_calls reading argp clnt_res clnt w = refl
  stub_calls reading_stb argp clnt_res clnt w = refl
  stub_calls triggering argp clnt_res clnt w = refl
  stub_calls clearing argp clnt_res clnt w = refl
  stub_calls going_remote argp clnt_res clnt w = refl
  stub_calls going_local argp clnt_res clnt w = refl
  stub_calls locking argp clnt_res clnt w = refl
  stub_calls unlocking argp clnt_res clnt w = refl
  stub_calls enabling_srq argp clnt_res clnt w = refl
  stub_calls commanding argp clnt_res clnt w = refl
  stub_calls unlinking argp clnt_res clnt w = refl
  stub_calls interrupting argp clnt_res clnt w = refl
