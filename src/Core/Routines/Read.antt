-- ===== src/Core/Routines/Read.antt =====
-- src/vxi11core_xdr.c: the messages of device_read and device_readstb.
use liblxi.Base.{◌*◌}
use liblxi.Xdr.{
  Xdr, int, u_int, char, u_char, M, ◌>>=◌, done, by_op, if_inline, ixdr_put, ixdr_get, uint_max,
}
use liblxi.Core.{DeviceReadParms, DeviceReadResp, DeviceReadStbResp}
use liblxi.Core.Routines.{
  xdr_device_link, xdr_device_flags, xdr_device_error_code, bytes_per_xdr_unit,
}

module _ {S : Type 0} (x : Xdr S) where
  unfoldable pub device_read_parms_slow : DeviceReadParms → M S DeviceReadParms
  device_read_parms_slow o = do
    request_size ← x.number u_int o.request_size
    io_timeout ← x.number u_int o.io_timeout
    lock_timeout ← x.number u_int o.lock_timeout
    done (record o {
      request_size = request_size;
      io_timeout = io_timeout;
      lock_timeout = lock_timeout;
    })

  unfoldable pub device_read_parms_put : DeviceReadParms → M S DeviceReadParms
  device_read_parms_put o = do
    request_size ← ixdr_put x o.request_size
    io_timeout ← ixdr_put x o.io_timeout
    lock_timeout ← ixdr_put x o.lock_timeout
    done (record o {
      request_size = request_size;
      io_timeout = io_timeout;
      lock_timeout = lock_timeout;
    })

  unfoldable pub device_read_parms_get : DeviceReadParms → M S DeviceReadParms
  device_read_parms_get o = do
    request_size ← ixdr_get x
    io_timeout ← ixdr_get x
    lock_timeout ← ixdr_get x
    done (record o {
      request_size = request_size;
      io_timeout = io_timeout;
      lock_timeout = lock_timeout;
    })

  unfoldable pub device_read_parms_rest : DeviceReadParms → M S DeviceReadParms
  device_read_parms_rest o = do
    flags ← xdr_device_flags x o.flags
    term_char ← x.number char o.term_char
    done (record o { flags = flags; term_char = term_char })

  unfoldable pub device_read_parms_first : DeviceReadParms → M S DeviceReadParms
  device_read_parms_first o = do lid ← xdr_device_link x o.lid; done (record o { lid = lid })

  unfoldable pub xdr_device_read_parms : DeviceReadParms → M S DeviceReadParms
  unfolding device_read_parms_first device_read_parms_slow device_read_parms_put
      device_read_parms_get device_read_parms_rest
  xdr_device_read_parms o =
      by_op x
        (do
          o1 ← device_read_parms_first o
          o2 ←
              if_inline x (3 * bytes_per_xdr_unit) (device_read_parms_slow o1)
                (device_read_parms_put o1)
          device_read_parms_rest o2)
        (do
          o1 ← device_read_parms_first o
          o2 ←
              if_inline x (3 * bytes_per_xdr_unit) (device_read_parms_slow o1)
                (device_read_parms_get o1)
          device_read_parms_rest o2)
        (do
          o1 ← device_read_parms_first o
          o2 ← device_read_parms_slow o1
          device_read_parms_rest o2)

  unfoldable pub xdr_device_read_resp : DeviceReadResp → M S DeviceReadResp
  xdr_device_read_resp o = do
    error ← xdr_device_error_code x o.error
    reason ← x.number int o.reason
    payload ← x.bytes o.payload uint_max
    done (record { error = error; reason = reason; payload = payload })

  unfoldable pub xdr_device_read_stb_resp : DeviceReadStbResp → M S DeviceReadStbResp
  xdr_device_read_stb_resp o = do
    error ← xdr_device_error_code x o.error
    stb ← x.number u_char o.stb
    done (record { error = error; stb = stb })
