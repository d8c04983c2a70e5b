-- ===== src/Core/Codes/Read.antt =====
-- The routines of src/vxi11core_xdr.c for reads keep to the wire format.
use liblxi.Base.{◌++◌, arith}
use liblxi.Xdr.{Xdr, int, u_int, char, u_char, uint_max}
use liblxi.Xdr.Rules.{
  be32, extended, Observer, Writes, Reads, XdrLaw, Codes, bind-Writes, bind-Reads, bind_done-Writes,
  bind_done-Reads, by_op-Writes, by_op-Reads, inline-Writes, inline-Reads,
}
use liblxi.Core.{DeviceReadParms, DeviceReadResp, DeviceReadStbResp}
use liblxi.Core.Wire.{
  IsDeviceReadParms, wire_device_read_parms, IsDeviceReadResp, wire_device_read_resp,
  IsDeviceReadStbResp, wire_device_read_stb_resp,
}
use liblxi.Core.Routines.Read.{
  xdr_device_read_parms, device_read_parms_first, device_read_parms_slow, device_read_parms_put,
  device_read_parms_get, device_read_parms_rest, xdr_device_read_resp, xdr_device_read_stb_resp,
}
use liblxi.Core.Codes.{
  xdr_device_link-Writes, xdr_device_link-Reads, xdr_device_flags-Writes, xdr_device_flags-Reads,
  xdr_device_error_code-Writes, xdr_device_error_code-Reads,
}

module _ {S : Type 0} (x : Xdr S) (obs : Observer S) (law : XdrLaw x obs) where
  device_read_parms_first-Writes :
      (a : DeviceReadParms)
      → IsDeviceReadParms a
      → Writes x obs 0 0 (device_read_parms_first x a) (be32 a.lid) (a)
  unfolding device_read_parms_first
  device_read_parms_first-Writes a h =
      bind_done-Writes _ (xdr_device_link-Writes x obs law a.lid h.lid)

  device_read_parms_slow-Writes :
      (a : DeviceReadParms)
      → IsDeviceReadParms a
      → Writes x obs 0 0
          (device_read_parms_slow x a)
          (be32 a.request_size ++ (be32 a.io_timeout ++ be32 a.lock_timeout))
          (a)
  unfolding device_read_parms_slow
  device_read_parms_slow-Writes a h =
      bind-Writes _ (law.number_writes u_int a.request_size h.request_size) (
        bind-Writes _ (law.number_writes u_int a.io_timeout h.io_timeout)
          (bind_done-Writes _ (law.number_writes u_int a.lock_timeout h.lock_timeout)))

  device_read_parms_put-Writes :
      (a : DeviceReadParms)
      → IsDeviceReadParms a
      → Writes x obs 12 0
          (device_read_parms_put x a)
          (be32 a.request_size ++ (be32 a.io_timeout ++ be32 a.lock_timeout))
          (a)
  unfolding device_read_parms_put
  device_read_parms_put-Writes a h =
      bind-Writes _ (law.put_writes 8 a.request_size h.request_size) (
        bind-Writes _ (law.put_writes 4 a.io_timeout h.io_timeout)
          (bind_done-Writes _ (law.put_writes 0 a.lock_timeout h.lock_timeout)))

  device_read_parms_rest-Writes :
      (a : DeviceReadParms)
      → IsDeviceReadParms a
      → Writes x obs 0 0
          (device_read_parms_rest x a)
          (be32 a.flags ++ be32 (extended char a.term_char))
          (a)
  unfolding device_read_parms_rest
  device_read_parms_rest-Writes a h =
      bind-Writes _ (xdr_device_flags-Writes x obs law a.flags h.flags)
        (bind_done-Writes _ (law.number_writes char a.term_char h.term_char))

  xdr_device_read_parms-Writes :
      (a : DeviceReadParms)
      → IsDeviceReadParms a
      → Writes x obs 0 0 (xdr_device_read_parms x a) (wire_device_read_parms a) a
  unfolding xdr_device_read_parms wire_device_read_parms
  xdr_device_read_parms-Writes a h = by_op-Writes _ _ (
      bind-Writes _ (device_read_parms_first-Writes a h) (
        bind-Writes _
          (inline-Writes 12 law (device_read_parms_slow-Writes a h)
            (device_read_parms_put-Writes a h))
          (device_read_parms_rest-Writes a h)))

  device_read_parms_first-Reads :
      (o a : DeviceReadParms)
      → IsDeviceReadParms a
      → Reads x obs 0 0 (device_read_parms_first x o) (be32 a.lid) (record o { lid = a.lid })
  unfolding device_read_parms_first
  device_read_parms_first-Reads o a h =
      bind_done-Reads _ (xdr_device_link-Reads x obs law o.lid a.lid h.lid)

  device_read_parms_slow-Reads :
      (o a : DeviceReadParms)
      → IsDeviceReadParms a
      → Reads x obs 0 0
          (device_read_parms_slow x o)
          (be32 a.request_size ++ (be32 a.io_timeout ++ be32 a.lock_timeout))
          (record o {
            request_size = a.request_size;
            io_timeout = a.io_timeout;
            lock_timeout = a.lock_timeout;
          })
  unfolding device_read_parms_slow
  device_read_parms_slow-Reads o a h =
      bind-Reads _ (law.number_reads u_int o.request_size a.request_size h.request_size) (
        bind-Reads _ (law.number_reads u_int o.io_timeout a.io_timeout h.io_timeout)
          (bind_done-Reads _ (law.number_reads u_int o.lock_timeout a.lock_timeout h.lock_timeout)))

  device_read_parms_get-Reads :
      (o a : DeviceReadParms)
      → IsDeviceReadParms a
      → Reads x obs 12 0
          (device_read_parms_get x o)
          (be32 a.request_size ++ (be32 a.io_timeout ++ be32 a.lock_timeout))
          (record o {
            request_size = a.request_size;
            io_timeout = a.io_timeout;
            lock_timeout = a.lock_timeout;
          })
  unfolding device_read_parms_get
  device_read_parms_get-Reads o a h = bind-Reads _ (law.get_reads 8 a.request_size h.request_size) (
      bind-Reads _ (law.get_reads 4 a.io_timeout h.io_timeout)
        (bind_done-Reads _ (law.get_reads 0 a.lock_timeout h.lock_timeout)))

  device_read_parms_rest-Reads :
      (o a : DeviceReadParms)
      → IsDeviceReadParms a
      → Reads x obs 0 0
          (device_read_parms_rest x o)
          (be32 a.flags ++ be32 (extended char a.term_char))
          (record o { flags = a.flags; term_char = a.term_char })
  unfolding device_read_parms_rest
  device_read_parms_rest-Reads o a h =
      bind-Reads _ (xdr_device_flags-Reads x obs law o.flags a.flags h.flags)
        (bind_done-Reads _ (law.number_reads char o.term_char a.term_char h.term_char))

  xdr_device_read_parms-Reads :
      (old a : DeviceReadParms)
      → IsDeviceReadParms a
      → Reads x obs 0 0 (xdr_device_read_parms x old) (wire_device_read_parms a) a
  unfolding xdr_device_read_parms wire_device_read_parms
  xdr_device_read_parms-Reads old a h = by_op-Reads _ _ (
      bind-Reads _ (device_read_parms_first-Reads old a h) (
        bind-Reads _
          (inline-Reads 12 law (device_read_parms_slow-Reads (record old { lid = a.lid }) a h)
            (device_read_parms_get-Reads (record old { lid = a.lid }) a h))
          (device_read_parms_rest-Reads
            (record old {
              lid = a.lid;
              request_size = a.request_size;
              io_timeout = a.io_timeout;
              lock_timeout = a.lock_timeout;
            })
            a h)))

  -- On a stream that keeps to the XDR standard, the routine of Device_ReadParms encodes each valid object in
  -- its wire form, the fields in the order of the protocol's description, and decodes that form over
  -- any old object, whether the stream gives an inline window or not.
  pub xdr_device_read_parms-Codes :
      Codes x obs (xdr_device_read_parms x) wire_device_read_parms IsDeviceReadParms
  xdr_device_read_parms-Codes = record {
    writes = xdr_device_read_parms-Writes;
    reads = xdr_device_read_parms-Reads;
  }

  xdr_device_read_resp-Writes :
      (a : DeviceReadResp)
      → IsDeviceReadResp a
      → Writes x obs 0 0 (xdr_device_read_resp x a) (wire_device_read_resp a) a
  unfolding xdr_device_read_resp wire_device_read_resp
  xdr_device_read_resp-Writes a h =
      bind-Writes _ (xdr_device_error_code-Writes x obs law a.error h.error) (
        bind-Writes _ (law.number_writes int a.reason h.reason)
          (bind_done-Writes _ (law.bytes_writes a.payload uint_max h.payload (omega arith))))

  xdr_device_read_resp-Reads :
      (old a : DeviceReadResp)
      → IsDeviceReadResp a
      → Reads x obs 0 0 (xdr_device_read_resp x old) (wire_device_read_resp a) a
  unfolding xdr_device_read_resp wire_device_read_resp
  xdr_device_read_resp-Reads old a h =
      bind-Reads _ (xdr_device_error_code-Reads x obs law old.error a.error h.error) (
        bind-Reads _ (law.number_reads int old.reason a.reason h.reason) (
          bind_done-Reads _
            (law.bytes_reads old.payload a.payload uint_max h.payload (omega arith))))

  -- On a stream that keeps to the XDR standard, the routine of Device_ReadResp encodes each valid object in
  -- its wire form, the fields in the order of the protocol's description, and decodes that form over
  -- any old object, whether the stream gives an inline window or not.
  pub xdr_device_read_resp-Codes :
      Codes x obs (xdr_device_read_resp x) wire_device_read_resp IsDeviceReadResp
  xdr_device_read_resp-Codes = record {
    writes = xdr_device_read_resp-Writes;
    reads = xdr_device_read_resp-Reads;
  }

  xdr_device_read_stb_resp-Writes :
      (a : DeviceReadStbResp)
      → IsDeviceReadStbResp a
      → Writes x obs 0 0 (xdr_device_read_stb_resp x a) (wire_device_read_stb_resp a) a
  unfolding xdr_device_read_stb_resp wire_device_read_stb_resp
  xdr_device_read_stb_resp-Writes a h =
      bind-Writes _ (xdr_device_error_code-Writes x obs law a.error h.error)
        (bind_done-Writes _ (law.number_writes u_char a.stb h.stb))

  xdr_device_read_stb_resp-Reads :
      (old a : DeviceReadStbResp)
      → IsDeviceReadStbResp a
      → Reads x obs 0 0 (xdr_device_read_stb_resp x old) (wire_device_read_stb_resp a) a
  unfolding xdr_device_read_stb_resp wire_device_read_stb_resp
  xdr_device_read_stb_resp-Reads old a h =
      bind-Reads _ (xdr_device_error_code-Reads x obs law old.error a.error h.error)
        (bind_done-Reads _ (law.number_reads u_char old.stb a.stb h.stb))

  -- On a stream that keeps to the XDR standard, the routine of Device_ReadStbResp encodes each valid object in
  -- its wire form, the fields in the order of the protocol's description, and decodes that form over
  -- any old object, whether the stream gives an inline window or not.
  pub xdr_device_read_stb_resp-Codes :
      Codes x obs (xdr_device_read_stb_resp x) wire_device_read_stb_resp IsDeviceReadStbResp
  xdr_device_read_stb_resp-Codes = record {
    writes = xdr_device_read_stb_resp-Writes;
    reads = xdr_device_read_stb_resp-Reads;
  }
