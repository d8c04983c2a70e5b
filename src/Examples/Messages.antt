-- ===== src/Examples/Messages.antt =====
-- The theorems on src/vxi11core_xdr.c, on the stream in memory.
use liblxi.Core.Wire.{
  IsCreateLinkParms, wire_create_link_parms, IsDeviceWriteParms, wire_device_write_parms,
  IsDeviceReadParms, wire_device_read_parms, IsDeviceGenericParms, wire_device_generic_parms,
  IsDeviceLockParms, wire_device_lock_parms, IsDeviceEnableSrqParms, wire_device_enable_srq_parms,
  IsDeviceDocmdParms, wire_device_docmd_parms, IsDeviceError, wire_device_error, IsCreateLinkResp,
  wire_create_link_resp, IsDeviceWriteResp, wire_device_write_resp, IsDeviceReadResp,
  wire_device_read_resp, IsDeviceReadStbResp, wire_device_read_stb_resp, IsDeviceDocmdResp,
  wire_device_docmd_resp, IsDeviceRemoteFunc, wire_device_remote_func,
}
use liblxi.Core.Routines.{
  xdr_create_link_parms, xdr_device_write_parms, xdr_device_error, xdr_create_link_resp,
  xdr_device_write_resp,
}
use liblxi.Core.Routines.Read.{
  xdr_device_read_parms, xdr_device_read_resp, xdr_device_read_stb_resp,
}
use liblxi.Core.Routines.Control.{
  xdr_device_generic_parms, xdr_device_lock_parms, xdr_device_enable_srq_parms,
  xdr_device_docmd_parms, xdr_device_docmd_resp, xdr_device_remote_func,
}
use liblxi.Core.Codes.RoundTrip.{RoundTrips, requests_round_trip, replies_round_trip}
use liblxi.Examples.Stream.{memory_xdr, memory_observer, memory-XdrLaw}

requests_round_trip_example :
    RoundTrips memory_xdr memory_observer
      (xdr_create_link_parms memory_xdr)
      wire_create_link_parms
      IsCreateLinkParms
    × RoundTrips memory_xdr memory_observer
        (xdr_device_write_parms memory_xdr)
        wire_device_write_parms
        IsDeviceWriteParms
    × RoundTrips memory_xdr memory_observer
        (xdr_device_read_parms memory_xdr)
        wire_device_read_parms
        IsDeviceReadParms
    × RoundTrips memory_xdr memory_observer
        (xdr_device_generic_parms memory_xdr)
        wire_device_generic_parms
        IsDeviceGenericParms
    × RoundTrips memory_xdr memory_observer
        (xdr_device_lock_parms memory_xdr)
        wire_device_lock_parms
        IsDeviceLockParms
    × RoundTrips memory_xdr memory_observer
        (xdr_device_enable_srq_parms memory_xdr)
        wire_device_enable_srq_parms
        IsDeviceEnableSrqParms
    × RoundTrips memory_xdr memory_observer
        (xdr_device_docmd_parms memory_xdr)
        wire_device_docmd_parms
        IsDeviceDocmdParms
requests_round_trip_example = requests_round_trip memory_xdr memory_observer memory-XdrLaw

replies_round_trip_example :
    RoundTrips memory_xdr memory_observer
      (xdr_device_error memory_xdr)
      wire_device_error
      IsDeviceError
    × RoundTrips memory_xdr memory_observer
        (xdr_create_link_resp memory_xdr)
        wire_create_link_resp
        IsCreateLinkResp
    × RoundTrips memory_xdr memory_observer
        (xdr_device_write_resp memory_xdr)
        wire_device_write_resp
        IsDeviceWriteResp
    × RoundTrips memory_xdr memory_observer
        (xdr_device_read_resp memory_xdr)
        wire_device_read_resp
        IsDeviceReadResp
    × RoundTrips memory_xdr memory_observer
        (xdr_device_read_stb_resp memory_xdr)
        wire_device_read_stb_resp
        IsDeviceReadStbResp
    × RoundTrips memory_xdr memory_observer
        (xdr_device_docmd_resp memory_xdr)
        wire_device_docmd_resp
        IsDeviceDocmdResp
    × RoundTrips memory_xdr memory_observer
        (xdr_device_remote_func memory_xdr)
        wire_device_remote_func
        IsDeviceRemoteFunc
replies_round_trip_example = replies_round_trip memory_xdr memory_observer memory-XdrLaw
