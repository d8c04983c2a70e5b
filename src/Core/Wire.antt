-- ===== src/Core/Wire.antt =====
-- The form that src/vxi11core.rpcl gives each message on the wire, field by field in the order of the
-- description, and the objects that have one.
use liblxi.Base.{◌≤◌, ◌++◌, length, Bytes}
use liblxi.Xdr.{int, u_int, bool, enum, u_short, char, u_char, uint_max}
use liblxi.Xdr.Rules.{be32, counted, extended, Fits, NoNul}
use liblxi.Core.Routines.Control.{handle_max}
use liblxi.Core.{
  DeviceError, CreateLinkParms, CreateLinkResp, DeviceWriteParms, DeviceWriteResp, DeviceReadParms,
  DeviceReadResp, DeviceReadStbResp, DeviceGenericParms, DeviceRemoteFunc, DeviceEnableSrqParms,
  DeviceLockParms, DeviceDocmdParms, DeviceDocmdResp,
}

pub record IsDeviceError (o : DeviceError) : Type 0 where
  pub error : Fits int o.error

unfoldable pub wire_device_error : DeviceError → Bytes
wire_device_error o = be32 o.error

pub record IsCreateLinkParms (o : CreateLinkParms) : Type 0 where
  pub client_id : Fits int o.client_id
  pub lock_device : Fits bool o.lock_device
  pub lock_timeout : Fits u_int o.lock_timeout
  pub device : (length o.device ≤ uint_max) × NoNul o.device

unfoldable pub wire_create_link_parms : CreateLinkParms → Bytes
wire_create_link_parms o =
    (be32 o.client_id ++ (be32 o.lock_device ++ be32 o.lock_timeout)) ++ (counted o.device)

pub record IsCreateLinkResp (o : CreateLinkResp) : Type 0 where
  pub error : Fits int o.error
  pub lid : Fits int o.lid
  pub abort_port : Fits u_short o.abort_port
  pub max_recv_size : Fits u_int o.max_recv_size

unfoldable pub wire_create_link_resp : CreateLinkResp → Bytes
wire_create_link_resp o =
    be32 o.error ++ (be32 o.lid ++ (be32 o.abort_port ++ be32 o.max_recv_size))

pub record IsDeviceWriteParms (o : DeviceWriteParms) : Type 0 where
  pub lid : Fits int o.lid
  pub io_timeout : Fits u_int o.io_timeout
  pub lock_timeout : Fits u_int o.lock_timeout
  pub flags : Fits int o.flags
  pub payload : length o.payload ≤ uint_max

unfoldable pub wire_device_write_parms : DeviceWriteParms → Bytes
wire_device_write_parms o =
    be32 o.lid
    ++ (be32 o.io_timeout ++ (be32 o.lock_timeout ++ (be32 o.flags ++ counted o.payload)))

pub record IsDeviceWriteResp (o : DeviceWriteResp) : Type 0 where
  pub error : Fits int o.error
  pub size : Fits u_int o.size

unfoldable pub wire_device_write_resp : DeviceWriteResp → Bytes
wire_device_write_resp o = be32 o.error ++ be32 o.size

pub record IsDeviceReadParms (o : DeviceReadParms) : Type 0 where
  pub lid : Fits int o.lid
  pub request_size : Fits u_int o.request_size
  pub io_timeout : Fits u_int o.io_timeout
  pub lock_timeout : Fits u_int o.lock_timeout
  pub flags : Fits int o.flags
  pub term_char : Fits char o.term_char

unfoldable pub wire_device_read_parms : DeviceReadParms → Bytes
wire_device_read_parms o =
    (be32 o.lid)
    ++ ((be32 o.request_size ++ (be32 o.io_timeout ++ be32 o.lock_timeout))
        ++ (be32 o.flags ++ be32 (extended char o.term_char)))

pub record IsDeviceReadResp (o : DeviceReadResp) : Type 0 where
  pub error : Fits int o.error
  pub reason : Fits int o.reason
  pub payload : length o.payload ≤ uint_max

unfoldable pub wire_device_read_resp : DeviceReadResp → Bytes
wire_device_read_resp o = be32 o.error ++ (be32 o.reason ++ counted o.payload)

pub record IsDeviceReadStbResp (o : DeviceReadStbResp) : Type 0 where
  pub error : Fits int o.error
  pub stb : Fits u_char o.stb

unfoldable pub wire_device_read_stb_resp : DeviceReadStbResp → Bytes
wire_device_read_stb_resp o = be32 o.error ++ be32 o.stb

pub record IsDeviceGenericParms (o : DeviceGenericParms) : Type 0 where
  pub lid : Fits int o.lid
  pub flags : Fits int o.flags
  pub lock_timeout : Fits u_int o.lock_timeout
  pub io_timeout : Fits u_int o.io_timeout

unfoldable pub wire_device_generic_parms : DeviceGenericParms → Bytes
wire_device_generic_parms o =
    be32 o.lid ++ (be32 o.flags ++ (be32 o.lock_timeout ++ be32 o.io_timeout))

pub record IsDeviceRemoteFunc (o : DeviceRemoteFunc) : Type 0 where
  pub host_addr : Fits u_int o.host_addr
  pub host_port : Fits u_int o.host_port
  pub prog_num : Fits u_int o.prog_num
  pub prog_vers : Fits u_int o.prog_vers
  pub prog_family : Fits enum o.prog_family

unfoldable pub wire_device_remote_func : DeviceRemoteFunc → Bytes
wire_device_remote_func o =
    (be32 o.host_addr ++ (be32 o.host_port ++ (be32 o.prog_num ++ be32 o.prog_vers)))
    ++ (be32 o.prog_family)

pub record IsDeviceEnableSrqParms (o : DeviceEnableSrqParms) : Type 0 where
  pub lid : Fits int o.lid
  pub enable : Fits bool o.enable
  pub handle : length o.handle ≤ handle_max

unfoldable pub wire_device_enable_srq_parms : DeviceEnableSrqParms → Bytes
wire_device_enable_srq_parms o = be32 o.lid ++ (be32 o.enable ++ counted o.handle)

pub record IsDeviceLockParms (o : DeviceLockParms) : Type 0 where
  pub lid : Fits int o.lid
  pub flags : Fits int o.flags
  pub lock_timeout : Fits u_int o.lock_timeout

unfoldable pub wire_device_lock_parms : DeviceLockParms → Bytes
wire_device_lock_parms o = be32 o.lid ++ (be32 o.flags ++ be32 o.lock_timeout)

pub record IsDeviceDocmdParms (o : DeviceDocmdParms) : Type 0 where
  pub lid : Fits int o.lid
  pub flags : Fits int o.flags
  pub io_timeout : Fits u_int o.io_timeout
  pub lock_timeout : Fits u_int o.lock_timeout
  pub cmd : Fits int o.cmd
  pub network_order : Fits bool o.network_order
  pub datasize : Fits int o.datasize
  pub data_in : length o.data_in ≤ uint_max

unfoldable pub wire_device_docmd_parms : DeviceDocmdParms → Bytes
wire_device_docmd_parms o =
    (be32 o.lid ++ be32 o.flags)
    ++ ((be32 o.io_timeout
          ++ (be32 o.lock_timeout ++ (be32 o.cmd ++ (be32 o.network_order ++ be32 o.datasize))))
        ++ (counted o.data_in))

pub record IsDeviceDocmdResp (o : DeviceDocmdResp) : Type 0 where
  pub error : Fits int o.error
  pub data_out : length o.data_out ≤ uint_max

unfoldable pub wire_device_docmd_resp : DeviceDocmdResp → Bytes
wire_device_docmd_resp o = be32 o.error ++ counted o.data_out
