-- ===== src/Core.antt =====
-- src/vxi11core.h: the messages of the VXI-11 core and abort channels. An int or a bool_t is its
-- pattern of 32 bits; a counted array and a string are lists of bytes.
pub mod Routines
pub mod Wire
pub mod Codes
use liblxi.Base.{ℕ, Bytes}

pub record DeviceError : Type 0 where
  pub error : ℕ

pub record CreateLinkParms : Type 0 where
  pub client_id : ℕ
  pub lock_device : ℕ
  pub lock_timeout : ℕ
  pub device : Bytes

pub record CreateLinkResp : Type 0 where
  pub error : ℕ
  pub lid : ℕ
  pub abort_port : ℕ
  pub max_recv_size : ℕ

pub record DeviceWriteParms : Type 0 where
  pub lid : ℕ
  pub io_timeout : ℕ
  pub lock_timeout : ℕ
  pub flags : ℕ
  pub payload : Bytes

pub record DeviceWriteResp : Type 0 where
  pub error : ℕ
  pub size : ℕ

pub record DeviceReadParms : Type 0 where
  pub lid : ℕ
  pub request_size : ℕ
  pub io_timeout : ℕ
  pub lock_timeout : ℕ
  pub flags : ℕ
  pub term_char : ℕ

pub record DeviceReadResp : Type 0 where
  pub error : ℕ
  pub reason : ℕ
  pub payload : Bytes

pub record DeviceReadStbResp : Type 0 where
  pub error : ℕ
  pub stb : ℕ

pub record DeviceGenericParms : Type 0 where
  pub lid : ℕ
  pub flags : ℕ
  pub lock_timeout : ℕ
  pub io_timeout : ℕ

pub record DeviceRemoteFunc : Type 0 where
  pub host_addr : ℕ
  pub host_port : ℕ
  pub prog_num : ℕ
  pub prog_vers : ℕ
  pub prog_family : ℕ

pub record DeviceEnableSrqParms : Type 0 where
  pub lid : ℕ
  pub enable : ℕ
  pub handle : Bytes

pub record DeviceLockParms : Type 0 where
  pub lid : ℕ
  pub flags : ℕ
  pub lock_timeout : ℕ

pub record DeviceDocmdParms : Type 0 where
  pub lid : ℕ
  pub flags : ℕ
  pub io_timeout : ℕ
  pub lock_timeout : ℕ
  pub cmd : ℕ
  pub network_order : ℕ
  pub datasize : ℕ
  pub data_in : Bytes

pub record DeviceDocmdResp : Type 0 where
  pub error : ℕ
  pub data_out : Bytes
