-- ===== src/Core/Codes.antt =====
-- The routines of src/vxi11core_xdr.c for links and writes keep to the wire format.
pub mod Read
pub mod Control
pub mod RoundTrip
use liblxi.Base.{ℕ, ◌+◌, ◌≤◌, ◌<◌, ◌^◌, ◌++◌, length, Bytes, arith}
use liblxi.Xdr.{Xdr, int, u_int, bool, enum, u_short, char, u_char, uint_max}
use liblxi.Xdr.Rules.{
  be32, counted, extended, Fits, NoNul, Observer, Writes, Reads, XdrLaw, Codes, bind-Writes,
  bind-Reads, bind_done-Writes, bind_done-Reads, by_op-Writes, by_op-Reads, inline-Writes,
  inline-Reads, bool_word,
}
use liblxi.Core.{DeviceError, CreateLinkParms, CreateLinkResp, DeviceWriteParms, DeviceWriteResp}
use liblxi.Core.Wire.{
  IsDeviceError, wire_device_error, IsCreateLinkParms, wire_create_link_parms, IsCreateLinkResp,
  wire_create_link_resp, IsDeviceWriteParms, wire_device_write_parms, IsDeviceWriteResp,
  wire_device_write_resp,
}
use liblxi.Core.Routines.{
  xdr_device_link, xdr_device_addr_family, xdr_device_flags, xdr_device_error_code,
  xdr_device_error, xdr_create_link_parms, create_link_parms_slow, create_link_parms_put,
  create_link_parms_get, create_link_parms_rest, xdr_create_link_resp, xdr_device_write_parms,
  xdr_device_write_resp,
}

module _ {S : Type 0} (x : Xdr S) (obs : Observer S) (law : XdrLaw x obs) where
  pub xdr_device_link-Writes :
      (v : ℕ) → Fits int v → Writes x obs 0 0 (xdr_device_link x v) (be32 v) v
  unfolding xdr_device_link
  xdr_device_link-Writes v h = bind_done-Writes _ (law.number_writes int v h)

  pub xdr_device_link-Reads :
      (old v : ℕ) → Fits int v → Reads x obs 0 0 (xdr_device_link x old) (be32 v) v
  unfolding xdr_device_link
  xdr_device_link-Reads old v h = bind_done-Reads _ (law.number_reads int old v h)

  pub xdr_device_flags-Writes :
      (v : ℕ) → Fits int v → Writes x obs 0 0 (xdr_device_flags x v) (be32 v) v
  unfolding xdr_device_flags
  xdr_device_flags-Writes v h = bind_done-Writes _ (law.number_writes int v h)

  pub xdr_device_flags-Reads :
      (old v : ℕ) → Fits int v → Reads x obs 0 0 (xdr_device_flags x old) (be32 v) v
  unfolding xdr_device_flags
  xdr_device_flags-Reads old v h = bind_done-Reads _ (law.number_reads int old v h)

  pub xdr_device_error_code-Writes :
      (v : ℕ) → Fits int v → Writes x obs 0 0 (xdr_device_error_code x v) (be32 v) v
  unfolding xdr_device_error_code
  xdr_device_error_code-Writes v h = bind_done-Writes _ (law.number_writes int v h)

  pub xdr_device_error_code-Reads :
      (old v : ℕ) → Fits int v → Reads x obs 0 0 (xdr_device_error_code x old) (be32 v) v
  unfolding xdr_device_error_code
  xdr_device_error_code-Reads old v h = bind_done-Reads _ (law.number_reads int old v h)

  pub xdr_device_addr_family-Writes :
      (v : ℕ) → Fits enum v → Writes x obs 0 0 (xdr_device_addr_family x v) (be32 v) v
  unfolding xdr_device_addr_family
  xdr_device_addr_family-Writes v h = bind_done-Writes _ (law.number_writes enum v h)

  pub xdr_device_addr_family-Reads :
      (old v : ℕ) → Fits enum v → Reads x obs 0 0 (xdr_device_addr_family x old) (be32 v) v
  unfolding xdr_device_addr_family
  xdr_device_addr_family-Reads old v h = bind_done-Reads _ (law.number_reads enum old v h)

  xdr_device_error-Writes :
      (a : DeviceError)
      → IsDeviceError a
      → Writes x obs 0 0 (xdr_device_error x a) (wire_device_error a) a
  unfolding xdr_device_error wire_device_error
  xdr_device_error-Writes a h = bind_done-Writes _ (xdr_device_error_code-Writes a.error h.error)

  xdr_device_error-Reads :
      (old a : DeviceError)
      → IsDeviceError a
      → Reads x obs 0 0 (xdr_device_error x old) (wire_device_error a) a
  unfolding xdr_device_error wire_device_error
  xdr_device_error-Reads old a h =
      bind_done-Reads _ (xdr_device_error_code-Reads old.error a.error h.error)

  -- On a stream that keeps to the XDR standard, the routine of Device_Error encodes each valid object in
  -- its wire form, the fields in the order of the protocol's description, and decodes that form over
  -- any old object, whether the stream gives an inline window or not.
  pub xdr_device_error-Codes : Codes x obs (xdr_device_error x) wire_device_error IsDeviceError
  xdr_device_error-Codes = record {
    writes = xdr_device_error-Writes;
    reads = xdr_device_error-Reads;
  }

  create_link_parms_slow-Writes :
      (a : CreateLinkParms)
      → IsCreateLinkParms a
      → Writes x obs 0 0
          (create_link_parms_slow x a)
          (be32 a.client_id ++ (be32 a.lock_device ++ be32 a.lock_timeout))
          (a)
  unfolding create_link_parms_slow
  create_link_parms_slow-Writes a h =
      bind-Writes _ (law.number_writes int a.client_id h.client_id) (
        bind-Writes _ (law.number_writes bool a.lock_device h.lock_device)
          (bind_done-Writes _ (law.number_writes u_int a.lock_timeout h.lock_timeout)))

  create_link_parms_put-Writes :
      (a : CreateLinkParms)
      → IsCreateLinkParms a
      → Writes x obs 12 0
          (create_link_parms_put x a)
          (be32 a.client_id ++ (be32 a.lock_device ++ be32 a.lock_timeout))
          (a)
  unfolding create_link_parms_put
  create_link_parms_put-Writes a h = bind-Writes _ (law.put_writes 8 a.client_id h.client_id) (
      bind-Writes _ (law.put_writes 4 a.lock_device (bool_word h.lock_device))
        (bind_done-Writes _ (law.put_writes 0 a.lock_timeout h.lock_timeout)))

  create_link_parms_rest-Writes :
      (a : CreateLinkParms)
      → IsCreateLinkParms a
      → Writes x obs 0 0 (create_link_parms_rest x a) (counted a.device) (a)
  unfolding create_link_parms_rest
  create_link_parms_rest-Writes a h =
      bind_done-Writes _ (law.string_writes a.device uint_max h.device.1 h.device.0 (omega arith))

  xdr_create_link_parms-Writes :
      (a : CreateLinkParms)
      → IsCreateLinkParms a
      → Writes x obs 0 0 (xdr_create_link_parms x a) (wire_create_link_parms a) a
  unfolding xdr_create_link_parms wire_create_link_parms
  xdr_create_link_parms-Writes a h = by_op-Writes _ _ (
      bind-Writes _
        (inline-Writes 12 law (create_link_parms_slow-Writes a h)
          (create_link_parms_put-Writes a h))
        (create_link_parms_rest-Writes a h))

  create_link_parms_slow-Reads :
      (o a : CreateLinkParms)
      → IsCreateLinkParms a
      → Reads x obs 0 0
          (create_link_parms_slow x o)
          (be32 a.client_id ++ (be32 a.lock_device ++ be32 a.lock_timeout))
          (record o {
            client_id = a.client_id;
            lock_device = a.lock_device;
            lock_timeout = a.lock_timeout;
          })
  unfolding create_link_parms_slow
  create_link_parms_slow-Reads o a h =
      bind-Reads _ (law.number_reads int o.client_id a.client_id h.client_id) (
        bind-Reads _ (law.number_reads bool o.lock_device a.lock_device h.lock_device)
          (bind_done-Reads _ (law.number_reads u_int o.lock_timeout a.lock_timeout h.lock_timeout)))

  create_link_parms_get-Reads :
      (o a : CreateLinkParms)
      → IsCreateLinkParms a
      → Reads x obs 12 0
          (create_link_parms_get x o)
          (be32 a.client_id ++ (be32 a.lock_device ++ be32 a.lock_timeout))
          (record o {
            client_id = a.client_id;
            lock_device = a.lock_device;
            lock_timeout = a.lock_timeout;
          })
  unfolding create_link_parms_get
  create_link_parms_get-Reads o a h = bind-Reads _ (law.get_reads 8 a.client_id h.client_id) (
      bind-Reads _ (law.get_reads 4 a.lock_device (bool_word h.lock_device))
        (bind_done-Reads _ (law.get_reads 0 a.lock_timeout h.lock_timeout)))

  create_link_parms_rest-Reads :
      (o a : CreateLinkParms)
      → IsCreateLinkParms a
      → Reads x obs 0 0
          (create_link_parms_rest x o)
          (counted a.device)
          (record o { device = a.device })
  unfolding create_link_parms_rest
  create_link_parms_rest-Reads o a h =
      bind_done-Reads _
        (law.string_reads o.device a.device uint_max h.device.1 h.device.0 (omega arith))

  xdr_create_link_parms-Reads :
      (old a : CreateLinkParms)
      → IsCreateLinkParms a
      → Reads x obs 0 0 (xdr_create_link_parms x old) (wire_create_link_parms a) a
  unfolding xdr_create_link_parms wire_create_link_parms
  xdr_create_link_parms-Reads old a h = by_op-Reads _ _ (
      bind-Reads _
        (inline-Reads 12 law (create_link_parms_slow-Reads old a h)
          (create_link_parms_get-Reads old a h))
        (create_link_parms_rest-Reads
          (record old {
            client_id = a.client_id;
            lock_device = a.lock_device;
            lock_timeout = a.lock_timeout;
          })
          a h))

  -- On a stream that keeps to the XDR standard, the routine of Create_LinkParms encodes each valid object in
  -- its wire form, the fields in the order of the protocol's description, and decodes that form over
  -- any old object, whether the stream gives an inline window or not.
  pub xdr_create_link_parms-Codes :
      Codes x obs (xdr_create_link_parms x) wire_create_link_parms IsCreateLinkParms
  xdr_create_link_parms-Codes = record {
    writes = xdr_create_link_parms-Writes;
    reads = xdr_create_link_parms-Reads;
  }

  xdr_create_link_resp-Writes :
      (a : CreateLinkResp)
      → IsCreateLinkResp a
      → Writes x obs 0 0 (xdr_create_link_resp x a) (wire_create_link_resp a) a
  unfolding xdr_create_link_resp wire_create_link_resp
  xdr_create_link_resp-Writes a h = bind-Writes _ (xdr_device_error_code-Writes a.error h.error) (
      bind-Writes _ (xdr_device_link-Writes a.lid h.lid) (
        bind-Writes _ (law.number_writes u_short a.abort_port h.abort_port)
          (bind_done-Writes _ (law.number_writes u_int a.max_recv_size h.max_recv_size))))

  xdr_create_link_resp-Reads :
      (old a : CreateLinkResp)
      → IsCreateLinkResp a
      → Reads x obs 0 0 (xdr_create_link_resp x old) (wire_create_link_resp a) a
  unfolding xdr_create_link_resp wire_create_link_resp
  xdr_create_link_resp-Reads old a h =
      bind-Reads _ (xdr_device_error_code-Reads old.error a.error h.error) (
        bind-Reads _ (xdr_device_link-Reads old.lid a.lid h.lid) (
          bind-Reads _ (law.number_reads u_short old.abort_port a.abort_port h.abort_port) (
            bind_done-Reads _
              (law.number_reads u_int old.max_recv_size a.max_recv_size h.max_recv_size))))

  -- On a stream that keeps to the XDR standard, the routine of Create_LinkResp encodes each valid object in
  -- its wire form, the fields in the order of the protocol's description, and decodes that form over
  -- any old object, whether the stream gives an inline window or not.
  pub xdr_create_link_resp-Codes :
      Codes x obs (xdr_create_link_resp x) wire_create_link_resp IsCreateLinkResp
  xdr_create_link_resp-Codes = record {
    writes = xdr_create_link_resp-Writes;
    reads = xdr_create_link_resp-Reads;
  }

  xdr_device_write_parms-Writes :
      (a : DeviceWriteParms)
      → IsDeviceWriteParms a
      → Writes x obs 0 0 (xdr_device_write_parms x a) (wire_device_write_parms a) a
  unfolding xdr_device_write_parms wire_device_write_parms
  xdr_device_write_parms-Writes a h = bind-Writes _ (xdr_device_link-Writes a.lid h.lid) (
      bind-Writes _ (law.number_writes u_int a.io_timeout h.io_timeout) (
        bind-Writes _ (law.number_writes u_int a.lock_timeout h.lock_timeout) (
          bind-Writes _ (xdr_device_flags-Writes a.flags h.flags)
            (bind_done-Writes _ (law.bytes_writes a.payload uint_max h.payload (omega arith))))))

  xdr_device_write_parms-Reads :
      (old a : DeviceWriteParms)
      → IsDeviceWriteParms a
      → Reads x obs 0 0 (xdr_device_write_parms x old) (wire_device_write_parms a) a
  unfolding xdr_device_write_parms wire_device_write_parms
  xdr_device_write_parms-Reads old a h = bind-Reads _ (xdr_device_link-Reads old.lid a.lid h.lid) (
      bind-Reads _ (law.number_reads u_int old.io_timeout a.io_timeout h.io_timeout) (
        bind-Reads _ (law.number_reads u_int old.lock_timeout a.lock_timeout h.lock_timeout) (
          bind-Reads _ (xdr_device_flags-Reads old.flags a.flags h.flags) (
            bind_done-Reads _
              (law.bytes_reads old.payload a.payload uint_max h.payload (omega arith))))))

  -- On a stream that keeps to the XDR standard, the routine of Device_WriteParms encodes each valid object in
  -- its wire form, the fields in the order of the protocol's description, and decodes that form over
  -- any old object, whether the stream gives an inline window or not.
  pub xdr_device_write_parms-Codes :
      Codes x obs (xdr_device_write_parms x) wire_device_write_parms IsDeviceWriteParms
  xdr_device_write_parms-Codes = record {
    writes = xdr_device_write_parms-Writes;
    reads = xdr_device_write_parms-Reads;
  }

  xdr_device_write_resp-Writes :
      (a : DeviceWriteResp)
      → IsDeviceWriteResp a
      → Writes x obs 0 0 (xdr_device_write_resp x a) (wire_device_write_resp a) a
  unfolding xdr_device_write_resp wire_device_write_resp
  xdr_device_write_resp-Writes a h =
      bind-Writes _ (xdr_device_error_code-Writes a.error h.error)
        (bind_done-Writes _ (law.number_writes u_int a.size h.size))

  xdr_device_write_resp-Reads :
      (old a : DeviceWriteResp)
      → IsDeviceWriteResp a
      → Reads x obs 0 0 (xdr_device_write_resp x old) (wire_device_write_resp a) a
  unfolding xdr_device_write_resp wire_device_write_resp
  xdr_device_write_resp-Reads old a h =
      bind-Reads _ (xdr_device_error_code-Reads old.error a.error h.error)
        (bind_done-Reads _ (law.number_reads u_int old.size a.size h.size))

  -- On a stream that keeps to the XDR standard, the routine of Device_WriteResp encodes each valid object in
  -- its wire form, the fields in the order of the protocol's description, and decodes that form over
  -- any old object, whether the stream gives an inline window or not.
  pub xdr_device_write_resp-Codes :
      Codes x obs (xdr_device_write_resp x) wire_device_write_resp IsDeviceWriteResp
  xdr_device_write_resp-Codes = record {
    writes = xdr_device_write_resp-Writes;
    reads = xdr_device_write_resp-Reads;
  }
