-- ===== src/Core/Routines/Control.antt =====
-- src/vxi11core_xdr.c: the messages of the other operations.
use liblxi.Base.{ℕ, ◌*◌}
use liblxi.Xdr.{
  Xdr, int, u_int, bool, M, ◌>>=◌, done, by_op, if_inline, ixdr_put, ixdr_get, uint_max,
}
use liblxi.Core.{
  DeviceGenericParms, DeviceRemoteFunc, DeviceEnableSrqParms, DeviceLockParms, DeviceDocmdParms,
  DeviceDocmdResp,
}
use liblxi.Core.Routines.{
  xdr_device_link, xdr_device_addr_family, xdr_device_flags, xdr_device_error_code,
  bytes_per_xdr_unit,
}

-- The bound of opaque handle<40>.
abbrev pub handle_max : ℕ
handle_max = 40

module _ {S : Type 0} (x : Xdr S) where
  unfoldable pub xdr_device_generic_parms : DeviceGenericParms → M S DeviceGenericParms
  xdr_device_generic_parms o = do
    lid ← xdr_device_link x o.lid
    flags ← xdr_device_flags x o.flags
    lock_timeout ← x.number u_int o.lock_timeout
    io_timeout ← x.number u_int o.io_timeout
    done (record { lid = lid; flags = flags; lock_timeout = lock_timeout; io_timeout = io_timeout })

  unfoldable pub device_remote_func_slow : DeviceRemoteFunc → M S DeviceRemoteFunc
  device_remote_func_slow o = do
    host_addr ← x.number u_int o.host_addr
    host_port ← x.number u_int o.host_port
    prog_num ← x.number u_int o.prog_num
    prog_vers ← x.number u_int o.prog_vers
    done (record o {
      host_addr = host_addr;
      host_port = host_port;
      prog_num = prog_num;
      prog_vers = prog_vers;
    })

  unfoldable pub device_remote_func_put : DeviceRemoteFunc → M S DeviceRemoteFunc
  device_remote_func_put o = do
    host_addr ← ixdr_put x o.host_addr
    host_port ← ixdr_put x o.host_port
    prog_num ← ixdr_put x o.prog_num
    prog_vers ← ixdr_put x o.prog_vers
    done (record o {
      host_addr = host_addr;
      host_port = host_port;
      prog_num = prog_num;
      prog_vers = prog_vers;
    })

  unfoldable pub device_remote_func_get : DeviceRemoteFunc → M S DeviceRemoteFunc
  device_remote_func_get o = do
    host_addr ← ixdr_get x
    host_port ← ixdr_get x
    prog_num ← ixdr_get x
    prog_vers ← ixdr_get x
    done (record o {
      host_addr = host_addr;
      host_port = host_port;
      prog_num = prog_num;
      prog_vers = prog_vers;
    })

  unfoldable pub device_remote_func_rest : DeviceRemoteFunc → M S DeviceRemoteFunc
  device_remote_func_rest o = do
    prog_family ← xdr_device_addr_family x o.prog_family
    done (record o { prog_family = prog_family })

  unfoldable pub xdr_device_remote_func : DeviceRemoteFunc → M S DeviceRemoteFunc
  unfolding device_remote_func_slow device_remote_func_put device_remote_func_get
      device_remote_func_rest
  xdr_device_remote_func o =
      by_op x
        (do
          o2 ←
              if_inline x (4 * bytes_per_xdr_unit) (device_remote_func_slow o)
                (device_remote_func_put o)
          device_remote_func_rest o2)
        (do
          o2 ←
              if_inline x (4 * bytes_per_xdr_unit) (device_remote_func_slow o)
                (device_remote_func_get o)
          device_remote_func_rest o2)
        (do o2 ← device_remote_func_slow o; device_remote_func_rest o2)

  unfoldable pub xdr_device_enable_srq_parms : DeviceEnableSrqParms → M S DeviceEnableSrqParms
  xdr_device_enable_srq_parms o = do
    lid ← xdr_device_link x o.lid
    enable ← x.number bool o.enable
    handle ← x.bytes o.handle handle_max
    done (record { lid = lid; enable = enable; handle = handle })

  unfoldable pub xdr_device_lock_parms : DeviceLockParms → M S DeviceLockParms
  xdr_device_lock_parms o = do
    lid ← xdr_device_link x o.lid
    flags ← xdr_device_flags x o.flags
    lock_timeout ← x.number u_int o.lock_timeout
    done (record { lid = lid; flags = flags; lock_timeout = lock_timeout })

  unfoldable pub device_docmd_parms_slow : DeviceDocmdParms → M S DeviceDocmdParms
  device_docmd_parms_slow o = do
    io_timeout ← x.number u_int o.io_timeout
    lock_timeout ← x.number u_int o.lock_timeout
    cmd ← x.number int o.cmd
    network_order ← x.number bool o.network_order
    datasize ← x.number int o.datasize
    done (record o {
      io_timeout = io_timeout;
      lock_timeout = lock_timeout;
      cmd = cmd;
      network_order = network_order;
      datasize = datasize;
    })

  unfoldable pub device_docmd_parms_put : DeviceDocmdParms → M S DeviceDocmdParms
  device_docmd_parms_put o = do
    io_timeout ← ixdr_put x o.io_timeout
    lock_timeout ← ixdr_put x o.lock_timeout
    cmd ← ixdr_put x o.cmd
    network_order ← ixdr_put x o.network_order
    datasize ← ixdr_put x o.datasize
    done (record o {
      io_timeout = io_timeout;
      lock_timeout = lock_timeout;
      cmd = cmd;
      network_order = network_order;
      datasize = datasize;
    })

  unfoldable pub device_docmd_parms_get : DeviceDocmdParms → M S DeviceDocmdParms
  device_docmd_parms_get o = do
    io_timeout ← ixdr_get x
    lock_timeout ← ixdr_get x
    cmd ← ixdr_get x
    network_order ← ixdr_get x
    datasize ← ixdr_get x
    done (record o {
      io_timeout = io_timeout;
      lock_timeout = lock_timeout;
      cmd = cmd;
      network_order = network_order;
      datasize = datasize;
    })

  unfoldable pub device_docmd_parms_rest : DeviceDocmdParms → M S DeviceDocmdParms
  device_docmd_parms_rest o = do
    data_in ← x.bytes o.data_in uint_max
    done (record o { data_in = data_in })

  unfoldable pub device_docmd_parms_first : DeviceDocmdParms → M S DeviceDocmdParms
  device_docmd_parms_first o = do
    lid ← xdr_device_link x o.lid
    flags ← xdr_device_flags x o.flags
    done (record o { lid = lid; flags = flags })

  unfoldable pub xdr_device_docmd_parms : DeviceDocmdParms → M S DeviceDocmdParms
  unfolding device_docmd_parms_first device_docmd_parms_slow device_docmd_parms_put
      device_docmd_parms_get device_docmd_parms_rest
  xdr_device_docmd_parms o =
      by_op x
        (do
          o1 ← device_docmd_parms_first o
          o2 ←
              if_inline x (5 * bytes_per_xdr_unit) (device_docmd_parms_slow o1)
                (device_docmd_parms_put o1)
          device_docmd_parms_rest o2)
        (do
          o1 ← device_docmd_parms_first o
          o2 ←
              if_inline x (5 * bytes_per_xdr_unit) (device_docmd_parms_slow o1)
                (device_docmd_parms_get o1)
          device_docmd_parms_rest o2)
        (do
          o1 ← device_docmd_parms_first o
          o2 ← device_docmd_parms_slow o1
          device_docmd_parms_rest o2)

  unfoldable pub xdr_device_docmd_resp : DeviceDocmdResp → M S DeviceDocmdResp
  xdr_device_docmd_resp o = do
    error ← xdr_device_error_code x o.error
    data_out ← x.bytes o.data_out uint_max
    done (record { error = error; data_out = data_out })
