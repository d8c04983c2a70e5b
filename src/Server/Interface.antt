-- ===== src/Server/Interface.antt =====
-- What the server's side of the RPC library and an implementation of a device offer to
-- src/vxi11core_svc.c, as interfaces over a state `W` of the world.
use liblxi.Base.{ℕ, ℤ, Bool, Option}
use liblxi.Xdr.{M}
use liblxi.Core.{
  DeviceError, CreateLinkParms, CreateLinkResp, DeviceWriteParms, DeviceWriteResp, DeviceReadParms,
  DeviceReadResp, DeviceReadStbResp, DeviceGenericParms, DeviceRemoteFunc, DeviceEnableSrqParms,
  DeviceLockParms, DeviceDocmdParms, DeviceDocmdResp,
}

-- The server's side of the RPC library, for one request. `svc_getargs` gives `none` for FALSE.
pub record Svc (S W : Type 0) : Type 1 where
  pub xdr_void : Unit {0} → M S (Unit {0})
  pub svc_getargs : {A : Type 0} → (A → M S A) → A → W → Option A × W
  pub svc_sendreply : {B : Type 0} → (B → M S B) → B → W → Bool × W
  pub svc_freeargs : {A : Type 0} → (A → M S A) → A → W → Bool × W
  pub svcerr_noproc : W → W
  pub svcerr_decode : W → W
  pub svcerr_systemerr : W → W

-- The functions that rpcgen expects of an implementation. Each returns a bool_t and its result.
pub record Device (S W : Type 0) : Type 1 where
  pub device_abort_1_svc : ℕ → W → ℤ × DeviceError × W
  pub create_link_1_svc : CreateLinkParms → W → ℤ × CreateLinkResp × W
  pub device_write_1_svc : DeviceWriteParms → W → ℤ × DeviceWriteResp × W
  pub device_read_1_svc : DeviceReadParms → W → ℤ × DeviceReadResp × W
  pub device_readstb_1_svc : DeviceGenericParms → W → ℤ × DeviceReadStbResp × W
  pub device_trigger_1_svc : DeviceGenericParms → W → ℤ × DeviceError × W
  pub device_clear_1_svc : DeviceGenericParms → W → ℤ × DeviceError × W
  pub device_remote_1_svc : DeviceGenericParms → W → ℤ × DeviceError × W
  pub device_local_1_svc : DeviceGenericParms → W → ℤ × DeviceError × W
  pub device_lock_1_svc : DeviceLockParms → W → ℤ × DeviceError × W
  pub device_unlock_1_svc : ℕ → W → ℤ × DeviceError × W
  pub device_enable_srq_1_svc : DeviceEnableSrqParms → W → ℤ × DeviceError × W
  pub device_docmd_1_svc : DeviceDocmdParms → W → ℤ × DeviceDocmdResp × W
  pub destroy_link_1_svc : ℕ → W → ℤ × DeviceError × W
  pub create_intr_chan_1_svc : DeviceRemoteFunc → W → ℤ × DeviceError × W
  pub destroy_intr_chan_1_svc : Unit {0} → W → ℤ × DeviceError × W
  pub device_async_1_freeresult : {B : Type 0} → (B → M S B) → B → W → Bool × W
  pub device_core_1_freeresult : {B : Type 0} → (B → M S B) → B → W → Bool × W

-- Registering: a transport is known by a handle, and `true` stands for TCP, `false` for UDP.
pub record Registry (W : Type 0) : Type 0 where
  pub pmap_unset : ℕ → ℕ → W → W
  pub svcudp_create : W → Option ℕ × W
  pub svctcp_create : W → Option ℕ × W
  pub svc_register : ℕ → ℕ → ℕ → Bool → W → Bool × W
  pub svc_run : W → W
