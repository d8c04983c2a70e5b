-- ===== src/Core/Codes/Control.antt =====
-- The routines of src/vxi11core_xdr.c for the other operations keep to the wire format.
use liblxi.Base.{◌++◌, arith}
use liblxi.Xdr.{Xdr, int, u_int, bool, uint_max}
use liblxi.Xdr.Rules.{
  be32, counted, Observer, Writes, Reads, XdrLaw, Codes, bind-Writes, bind-Reads, bind_done-Writes,
  bind_done-Reads, by_op-Writes, by_op-Reads, inline-Writes, inline-Reads, bool_word,
}
use liblxi.Core.{
  DeviceGenericParms, DeviceRemoteFunc, DeviceEnableSrqParms, DeviceLockParms, DeviceDocmdParms,
  DeviceDocmdResp,
}
use liblxi.Core.Wire.{
  IsDeviceGenericParms, wire_device_generic_parms, IsDeviceRemoteFunc, wire_device_remote_func,
  IsDeviceEnableSrqParms, wire_device_enable_srq_parms, IsDeviceLockParms, wire_device_lock_parms,
  IsDeviceDocmdParms, wire_device_docmd_parms, IsDeviceDocmdResp, wire_device_docmd_resp,
}
use liblxi.Core.Routines.Control.{
  handle_max, xdr_device_generic_parms, xdr_device_remote_func, device_remote_func_slow,
  device_remote_func_put, device_remote_func_get, device_remote_func_rest,
  xdr_device_enable_srq_parms, xdr_device_lock_parms, xdr_device_docmd_parms,
  device_docmd_parms_first, device_docmd_parms_slow, device_docmd_parms_put, device_docmd_parms_get,
  device_docmd_parms_rest, xdr_device_docmd_resp,
}
use liblxi.Core.Codes.{
  xdr_device_link-Writes, xdr_device_link-Reads, xdr_device_flags-Writes, xdr_device_flags-Reads,
  xdr_device_error_code-Writes, xdr_device_error_code-Reads, xdr_device_addr_family-Writes,
  xdr_device_addr_family-Reads,
}

module _ {S : Type 0} (x : Xdr S) (obs : Observer S) (law : XdrLaw x obs) where
  xdr_device_generic_parms-Writes :
      (a : DeviceGenericParms)
      → IsDeviceGenericParms a
      → Writes x obs 0 0 (xdr_device_generic_parms x a) (wire_device_generic_parms a) a
  unfolding xdr_device_generic_parms wire_device_generic_parms
  xdr_device_generic_parms-Writes a h =
      bind-Writes _ (xdr_device_link-Writes x obs law a.lid h.lid) (
        bind-Writes _ (xdr_device_flags-Writes x obs law a.flags h.flags) (
          bind-Writes _ (law.number_writes u_int a.lock_timeout h.lock_timeout)
            (bind_done-Writes _ (law.number_writes u_int a.io_timeout h.io_timeout))))

  xdr_device_generic_parms-Reads :
      (old a : DeviceGenericParms)
      → IsDeviceGenericParms a
      → Reads x obs 0 0 (xdr_device_generic_parms x old) (wire_device_generic_parms a) a
  unfolding xdr_device_generic_parms wire_device_generic_parms
  xdr_device_generic_parms-Reads old a h =
      bind-Reads _ (xdr_device_link-Reads x obs law old.lid a.lid h.lid) (
        bind-Reads _ (xdr_device_flags-Reads x obs law old.flags a.flags h.flags) (
          bind-Reads _ (law.number_reads u_int old.lock_timeout a.lock_timeout h.lock_timeout)
            (bind_done-Reads _ (law.number_reads u_int old.io_timeout a.io_timeout h.io_timeout))))

  -- On a stream that keeps to the XDR standard, the routine of Device_GenericParms encodes each valid object in
  -- its wire form, the fields in the order of the protocol's description, and decodes that form over
  -- any old object, whether the stream gives an inline window or not.
  pub xdr_device_generic_parms-Codes :
      Codes x obs (xdr_device_generic_parms x) wire_device_generic_parms IsDeviceGenericParms
  xdr_device_generic_parms-Codes = record {
    writes = xdr_device_generic_parms-Writes;
    reads = xdr_device_generic_parms-Reads;
  }

  device_remote_func_slow-Writes :
      (a : DeviceRemoteFunc)
      → IsDeviceRemoteFunc a
      → Writes x obs 0 0
          (device_remote_func_slow x a)
          (be32 a.host_addr ++ (be32 a.host_port ++ (be32 a.prog_num ++ be32 a.prog_vers)))
          (a)
  unfolding device_remote_func_slow
  device_remote_func_slow-Writes a h =
      bind-Writes _ (law.number_writes u_int a.host_addr h.host_addr) (
        bind-Writes _ (law.number_writes u_int a.host_port h.host_port) (
          bind-Writes _ (law.number_writes u_int a.prog_num h.prog_num)
            (bind_done-Writes _ (law.number_writes u_int a.prog_vers h.prog_vers))))

  device_remote_func_put-Writes :
      (a : DeviceRemoteFunc)
      → IsDeviceRemoteFunc a
      → Writes x obs 16 0
          (device_remote_func_put x a)
          (be32 a.host_addr ++ (be32 a.host_port ++ (be32 a.prog_num ++ be32 a.prog_vers)))
          (a)
  unfolding device_remote_func_put
  device_remote_func_put-Writes a h = bind-Writes _ (law.put_writes 12 a.host_addr h.host_addr) (
      bind-Writes _ (law.put_writes 8 a.host_port h.host_port) (
        bind-Writes _ (law.put_writes 4 a.prog_num h.prog_num)
          (bind_done-Writes _ (law.put_writes 0 a.prog_vers h.prog_vers))))

  device_remote_func_rest-Writes :
      (a : DeviceRemoteFunc)
      → IsDeviceRemoteFunc a
      → Writes x obs 0 0 (device_remote_func_rest x a) (be32 a.prog_family) (a)
  unfolding device_remote_func_rest
  device_remote_func_rest-Writes a h =
      bind_done-Writes _ (xdr_device_addr_family-Writes x obs law a.prog_family h.prog_family)

  xdr_device_remote_func-Writes :
      (a : DeviceRemoteFunc)
      → IsDeviceRemoteFunc a
      → Writes x obs 0 0 (xdr_device_remote_func x a) (wire_device_remote_func a) a
  unfolding xdr_device_remote_func wire_device_remote_func
  xdr_device_remote_func-Writes a h = by_op-Writes _ _ (
      bind-Writes _
        (inline-Writes 16 law (device_remote_func_slow-Writes a h)
          (device_remote_func_put-Writes a h))
        (device_remote_func_rest-Writes a h))

  device_remote_func_slow-Reads :
      (o a : DeviceRemoteFunc)
      → IsDeviceRemoteFunc a
      → Reads x obs 0 0
          (device_remote_func_slow x o)
          (be32 a.host_addr ++ (be32 a.host_port ++ (be32 a.prog_num ++ be32 a.prog_vers)))
          (record o {
            host_addr = a.host_addr;
            host_port = a.host_port;
            prog_num = a.prog_num;
            prog_vers = a.prog_vers;
          })
  unfolding device_remote_func_slow
  device_remote_func_slow-Reads o a h =
      bind-Reads _ (law.number_reads u_int o.host_addr a.host_addr h.host_addr) (
        bind-Reads _ (law.number_reads u_int o.host_port a.host_port h.host_port) (
          bind-Reads _ (law.number_reads u_int o.prog_num a.prog_num h.prog_num)
            (bind_done-Reads _ (law.number_reads u_int o.prog_vers a.prog_vers h.prog_vers))))

  device_remote_func_get-Reads :
      (o a : DeviceRemoteFunc)
      → IsDeviceRemoteFunc a
      → Reads x obs 16 0
          (device_remote_func_get x o)
          (be32 a.host_addr ++ (be32 a.host_port ++ (be32 a.prog_num ++ be32 a.prog_vers)))
          (record o {
            host_addr = a.host_addr;
            host_port = a.host_port;
            prog_num = a.prog_num;
            prog_vers = a.prog_vers;
          })
  unfolding device_remote_func_get
  device_remote_func_get-Reads o a h = bind-Reads _ (law.get_reads 12 a.host_addr h.host_addr) (
      bind-Reads _ (law.get_reads 8 a.host_port h.host_port) (
        bind-Reads _ (law.get_reads 4 a.prog_num h.prog_num)
          (bind_done-Reads _ (law.get_reads 0 a.prog_vers h.prog_vers))))

  device_remote_func_rest-Reads :
      (o a : DeviceRemoteFunc)
      → IsDeviceRemoteFunc a
      → Reads x obs 0 0
          (device_remote_func_rest x o)
          (be32 a.prog_family)
          (record o { prog_family = a.prog_family })
  unfolding device_remote_func_rest
  device_remote_func_rest-Reads o a h =
      bind_done-Reads _
        (xdr_device_addr_family-Reads x obs law o.prog_family a.prog_family h.prog_family)

  xdr_device_remote_func-Reads :
      (old a : DeviceRemoteFunc)
      → IsDeviceRemoteFunc a
      → Reads x obs 0 0 (xdr_device_remote_func x old) (wire_device_remote_func a) a
  unfolding xdr_device_remote_func wire_device_remote_func
  xdr_device_remote_func-Reads old a h = by_op-Reads _ _ (
      bind-Reads _
        (inline-Reads 16 law (device_remote_func_slow-Reads old a h)
          (device_remote_func_get-Reads old a h))
        (device_remote_func_rest-Reads
          (record old {
            host_addr = a.host_addr;
            host_port = a.host_port;
            prog_num = a.prog_num;
            prog_vers = a.prog_vers;
          })
          a h))

  -- On a stream that keeps to the XDR standard, the routine of Device_RemoteFunc encodes each valid object in
  -- its wire form, the fields in the order of the protocol's description, and decodes that form over
  -- any old object, whether the stream gives an inline window or not.
  pub xdr_device_remote_func-Codes :
      Codes x obs (xdr_device_remote_func x) wire_device_remote_func IsDeviceRemoteFunc
  xdr_device_remote_func-Codes = record {
    writes = xdr_device_remote_func-Writes;
    reads = xdr_device_remote_func-Reads;
  }

  xdr_device_enable_srq_parms-Writes :
      (a : DeviceEnableSrqParms)
      → IsDeviceEnableSrqParms a
      → Writes x obs 0 0 (xdr_device_enable_srq_parms x a) (wire_device_enable_srq_parms a) a
  unfolding xdr_device_enable_srq_parms wire_device_enable_srq_parms
  xdr_device_enable_srq_parms-Writes a h =
      bind-Writes _ (xdr_device_link-Writes x obs law a.lid h.lid) (
        bind-Writes _ (law.number_writes bool a.enable h.enable)
          (bind_done-Writes _ (law.bytes_writes a.handle handle_max h.handle (omega arith))))

  xdr_device_enable_srq_parms-Reads :
      (old a : DeviceEnableSrqParms)
      → IsDeviceEnableSrqParms a
      → Reads x obs 0 0 (xdr_device_enable_srq_parms x old) (wire_device_enable_srq_parms a) a
  unfolding xdr_device_enable_srq_parms wire_device_enable_srq_parms
  xdr_device_enable_srq_parms-Reads old a h =
      bind-Reads _ (xdr_device_link-Reads x obs law old.lid a.lid h.lid) (
        bind-Reads _ (law.number_reads bool old.enable a.enable h.enable) (
          bind_done-Reads _
            (law.bytes_reads old.handle a.handle handle_max h.handle (omega arith))))

  -- On a stream that keeps to the XDR standard, the routine of Device_EnableSrqParms encodes each valid object in
  -- its wire form, the fields in the order of the protocol's description, and decodes that form over
  -- any old object, whether the stream gives an inline window or not.
  pub xdr_device_enable_srq_parms-Codes :
      Codes x obs
        (xdr_device_enable_srq_parms x)
        wire_device_enable_srq_parms
        IsDeviceEnableSrqParms
  xdr_device_enable_srq_parms-Codes = record {
    writes = xdr_device_enable_srq_parms-Writes;
    reads = xdr_device_enable_srq_parms-Reads;
  }

  xdr_device_lock_parms-Writes :
      (a : DeviceLockParms)
      → IsDeviceLockParms a
      → Writes x obs 0 0 (xdr_device_lock_parms x a) (wire_device_lock_parms a) a
  unfolding xdr_device_lock_parms wire_device_lock_parms
  xdr_device_lock_parms-Writes a h = bind-Writes _ (xdr_device_link-Writes x obs law a.lid h.lid) (
      bind-Writes _ (xdr_device_flags-Writes x obs law a.flags h.flags)
        (bind_done-Writes _ (law.number_writes u_int a.lock_timeout h.lock_timeout)))

  xdr_device_lock_parms-Reads :
      (old a : DeviceLockParms)
      → IsDeviceLockParms a
      → Reads x obs 0 0 (xdr_device_lock_parms x old) (wire_device_lock_parms a) a
  unfolding xdr_device_lock_parms wire_device_lock_parms
  xdr_device_lock_parms-Reads old a h =
      bind-Reads _ (xdr_device_link-Reads x obs law old.lid a.lid h.lid) (
        bind-Reads _ (xdr_device_flags-Reads x obs law old.flags a.flags h.flags) (
          bind_done-Reads _
            (law.number_reads u_int old.lock_timeout a.lock_timeout h.lock_timeout)))

  -- On a stream that keeps to the XDR standard, the routine of Device_LockParms encodes each valid object in
  -- its wire form, the fields in the order of the protocol's description, and decodes that form over
  -- any old object, whether the stream gives an inline window or not.
  pub xdr_device_lock_parms-Codes :
      Codes x obs (xdr_device_lock_parms x) wire_device_lock_parms IsDeviceLockParms
  xdr_device_lock_parms-Codes = record {
    writes = xdr_device_lock_parms-Writes;
    reads = xdr_device_lock_parms-Reads;
  }

  device_docmd_parms_first-Writes :
      (a : DeviceDocmdParms)
      → IsDeviceDocmdParms a
      → Writes x obs 0 0 (device_docmd_parms_first x a) (be32 a.lid ++ be32 a.flags) (a)
  unfolding device_docmd_parms_first
  device_docmd_parms_first-Writes a h =
      bind-Writes _ (xdr_device_link-Writes x obs law a.lid h.lid)
        (bind_done-Writes _ (xdr_device_flags-Writes x obs law a.flags h.flags))

  device_docmd_parms_slow-Writes :
      (a : DeviceDocmdParms)
      → IsDeviceDocmdParms a
      → Writes x obs 0 0
          (device_docmd_parms_slow x a)
          (be32 a.io_timeout
            ++ (be32 a.lock_timeout ++ (be32 a.cmd ++ (be32 a.network_order ++ be32 a.datasize))))
          (a)
  unfolding device_docmd_parms_slow
  device_docmd_parms_slow-Writes a h =
      bind-Writes _ (law.number_writes u_int a.io_timeout h.io_timeout) (
        bind-Writes _ (law.number_writes u_int a.lock_timeout h.lock_timeout) (
          bind-Writes _ (law.number_writes int a.cmd h.cmd) (
            bind-Writes _ (law.number_writes bool a.network_order h.network_order)
              (bind_done-Writes _ (law.number_writes int a.datasize h.datasize)))))

  device_docmd_parms_put-Writes :
      (a : DeviceDocmdParms)
      → IsDeviceDocmdParms a
      → Writes x obs 20 0
          (device_docmd_parms_put x a)
          (be32 a.io_timeout
            ++ (be32 a.lock_timeout ++ (be32 a.cmd ++ (be32 a.network_order ++ be32 a.datasize))))
          (a)
  unfolding device_docmd_parms_put
  device_docmd_parms_put-Writes a h = bind-Writes _ (law.put_writes 16 a.io_timeout h.io_timeout) (
      bind-Writes _ (law.put_writes 12 a.lock_timeout h.lock_timeout) (
        bind-Writes _ (law.put_writes 8 a.cmd h.cmd) (
          bind-Writes _ (law.put_writes 4 a.network_order (bool_word h.network_order))
            (bind_done-Writes _ (law.put_writes 0 a.datasize h.datasize)))))

  device_docmd_parms_rest-Writes :
      (a : DeviceDocmdParms)
      → IsDeviceDocmdParms a
      → Writes x obs 0 0 (device_docmd_parms_rest x a) (counted a.data_in) (a)
  unfolding device_docmd_parms_rest
  device_docmd_parms_rest-Writes a h =
      bind_done-Writes _ (law.bytes_writes a.data_in uint_max h.data_in (omega arith))

  xdr_device_docmd_parms-Writes :
      (a : DeviceDocmdParms)
      → IsDeviceDocmdParms a
      → Writes x obs 0 0 (xdr_device_docmd_parms x a) (wire_device_docmd_parms a) a
  unfolding xdr_device_docmd_parms wire_device_docmd_parms
  xdr_device_docmd_parms-Writes a h = by_op-Writes _ _ (
      bind-Writes _ (device_docmd_parms_first-Writes a h) (
        bind-Writes _
          (inline-Writes 20 law (device_docmd_parms_slow-Writes a h)
            (device_docmd_parms_put-Writes a h))
          (device_docmd_parms_rest-Writes a h)))

  device_docmd_parms_first-Reads :
      (o a : DeviceDocmdParms)
      → IsDeviceDocmdParms a
      → Reads x obs 0 0
          (device_docmd_parms_first x o)
          (be32 a.lid ++ be32 a.flags)
          (record o { lid = a.lid; flags = a.flags })
  unfolding device_docmd_parms_first
  device_docmd_parms_first-Reads o a h =
      bind-Reads _ (xdr_device_link-Reads x obs law o.lid a.lid h.lid)
        (bind_done-Reads _ (xdr_device_flags-Reads x obs law o.flags a.flags h.flags))

  device_docmd_parms_slow-Reads :
      (o a : DeviceDocmdParms)
      → IsDeviceDocmdParms a
      → Reads x obs 0 0
          (device_docmd_parms_slow x o)
          (be32 a.io_timeout
            ++ (be32 a.lock_timeout ++ (be32 a.cmd ++ (be32 a.network_order ++ be32 a.datasize))))
          (record o {
            io_timeout = a.io_timeout;
            lock_timeout = a.lock_timeout;
            cmd = a.cmd;
            network_order = a.network_order;
            datasize = a.datasize;
          })
  unfolding device_docmd_parms_slow
  device_docmd_parms_slow-Reads o a h =
      bind-Reads _ (law.number_reads u_int o.io_timeout a.io_timeout h.io_timeout) (
        bind-Reads _ (law.number_reads u_int o.lock_timeout a.lock_timeout h.lock_timeout) (
          bind-Reads _ (law.number_reads int o.cmd a.cmd h.cmd) (
            bind-Reads _ (law.number_reads bool o.network_order a.network_order h.network_order)
              (bind_done-Reads _ (law.number_reads int o.datasize a.datasize h.datasize)))))

  device_docmd_parms_get-Reads :
      (o a : DeviceDocmdParms)
      → IsDeviceDocmdParms a
      → Reads x obs 20 0
          (device_docmd_parms_get x o)
          (be32 a.io_timeout
            ++ (be32 a.lock_timeout ++ (be32 a.cmd ++ (be32 a.network_order ++ be32 a.datasize))))
          (record o {
            io_timeout = a.io_timeout;
            lock_timeout = a.lock_timeout;
            cmd = a.cmd;
            network_order = a.network_order;
            datasize = a.datasize;
          })
  unfolding device_docmd_parms_get
  device_docmd_parms_get-Reads o a h = bind-Reads _ (law.get_reads 16 a.io_timeout h.io_timeout) (
      bind-Reads _ (law.get_reads 12 a.lock_timeout h.lock_timeout) (
        bind-Reads _ (law.get_reads 8 a.cmd h.cmd) (
          bind-Reads _ (law.get_reads 4 a.network_order (bool_word h.network_order))
            (bind_done-Reads _ (law.get_reads 0 a.datasize h.datasize)))))

  device_docmd_parms_rest-Reads :
      (o a : DeviceDocmdParms)
      → IsDeviceDocmdParms a
      → Reads x obs 0 0
          (device_docmd_parms_rest x o)
          (counted a.data_in)
          (record o { data_in = a.data_in })
  unfolding device_docmd_parms_rest
  device_docmd_parms_rest-Reads o a h =
      bind_done-Reads _ (law.bytes_reads o.data_in a.data_in uint_max h.data_in (omega arith))

  xdr_device_docmd_parms-Reads :
      (old a : DeviceDocmdParms)
      → IsDeviceDocmdParms a
      → Reads x obs 0 0 (xdr_device_docmd_parms x old) (wire_device_docmd_parms a) a
  unfolding xdr_device_docmd_parms wire_device_docmd_parms
  xdr_device_docmd_parms-Reads old a h = by_op-Reads _ _ (
      bind-Reads _ (device_docmd_parms_first-Reads old a h) (
        bind-Reads _
          (inline-Reads 20 law
            (device_docmd_parms_slow-Reads (record old { lid = a.lid; flags = a.flags }) a h)
            (device_docmd_parms_get-Reads (record old { lid = a.lid; flags = a.flags }) a h))
          (device_docmd_parms_rest-Reads
            (record old {
              lid = a.lid;
              flags = a.flags;
              io_timeout = a.io_timeout;
              lock_timeout = a.lock_timeout;
              cmd = a.cmd;
              network_order = a.network_order;
              datasize = a.datasize;
            })
            a h)))

  -- On a stream that keeps to the XDR standard, the routine of Device_DocmdParms encodes each valid object in
  -- its wire form, the fields in the order of the protocol's description, and decodes that form over
  -- any old object, whether the stream gives an inline window or not.
  pub xdr_device_docmd_parms-Codes :
      Codes x obs (xdr_device_docmd_parms x) wire_device_docmd_parms IsDeviceDocmdParms
  xdr_device_docmd_parms-Codes = record {
    writes = xdr_device_docmd_parms-Writes;
    reads = xdr_device_docmd_parms-Reads;
  }

  xdr_device_docmd_resp-Writes :
      (a : DeviceDocmdResp)
      → IsDeviceDocmdResp a
      → Writes x obs 0 0 (xdr_device_docmd_resp x a) (wire_device_docmd_resp a) a
  unfolding xdr_device_docmd_resp wire_device_docmd_resp
  xdr_device_docmd_resp-Writes a h =
      bind-Writes _ (xdr_device_error_code-Writes x obs law a.error h.error)
        (bind_done-Writes _ (law.bytes_writes a.data_out uint_max h.data_out (omega arith)))

  xdr_device_docmd_resp-Reads :
      (old a : DeviceDocmdResp)
      → IsDeviceDocmdResp a
      → Reads x obs 0 0 (xdr_device_docmd_resp x old) (wire_device_docmd_resp a) a
  unfolding xdr_device_docmd_resp wire_device_docmd_resp
  xdr_device_docmd_resp-Reads old a h =
      bind-Reads _ (xdr_device_error_code-Reads x obs law old.error a.error h.error) (
        bind_done-Reads _
          (law.bytes_reads old.data_out a.data_out uint_max h.data_out (omega arith)))

  -- On a stream that keeps to the XDR standard, the routine of Device_DocmdResp encodes each valid object in
  -- its wire form, the fields in the order of the protocol's description, and decodes that form over
  -- any old object, whether the stream gives an inline window or not.
  pub xdr_device_docmd_resp-Codes :
      Codes x obs (xdr_device_docmd_resp x) wire_device_docmd_resp IsDeviceDocmdResp
  xdr_device_docmd_resp-Codes = record {
    writes = xdr_device_docmd_resp-Writes;
    reads = xdr_device_docmd_resp-Reads;
  }
