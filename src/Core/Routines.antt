-- ===== src/Core/Routines.antt =====
-- src/vxi11core_xdr.c: the generated routines, one for each message. They encode, decode or free by
-- the direction of the stream; the value that comes out is the object behind the pointer.
pub mod Read
pub mod Control
use liblxi.Base.{ℕ, ◌*◌, Bytes}
use liblxi.Xdr.{
  Xdr, int, u_int, bool, enum, u_short, char, u_char, M, ◌>>=◌, done, by_op, if_inline, ixdr_put,
  ixdr_get, uint_max,
}
use liblxi.Core.{
  DeviceError, CreateLinkParms, CreateLinkResp, DeviceWriteParms, DeviceWriteResp, DeviceReadParms,
  DeviceReadResp, DeviceReadStbResp, DeviceGenericParms, DeviceRemoteFunc, DeviceEnableSrqParms,
  DeviceLockParms, DeviceDocmdParms, DeviceDocmdResp,
}

abbrev pub bytes_per_xdr_unit : ℕ
bytes_per_xdr_unit = 4

module _ {S : Type 0} (x : Xdr S) where
  unfoldable pub xdr_device_link : ℕ → M S ℕ
  xdr_device_link o = do v ← x.number int o; done v

  unfoldable pub xdr_device_addr_family : ℕ → M S ℕ
  xdr_device_addr_family o = do v ← x.number enum o; done v

  unfoldable pub xdr_device_flags : ℕ → M S ℕ
  xdr_device_flags o = do v ← x.number int o; done v

  unfoldable pub xdr_device_error_code : ℕ → M S ℕ
  xdr_device_error_code o = do v ← x.number int o; done v

  unfoldable pub xdr_device_error : DeviceError → M S DeviceError
  xdr_device_error o = do error ← xdr_device_error_code o.error; done (record { error = error })

  unfoldable pub create_link_parms_slow : CreateLinkParms → M S CreateLinkParms
  create_link_parms_slow o = do
    client_id ← x.number int o.client_id
    lock_device ← x.number bool o.lock_device
    lock_timeout ← x.number u_int o.lock_timeout
    done
        (record o { client_id = client_id; lock_device = lock_device; lock_timeout = lock_timeout })

  unfoldable pub create_link_parms_put : CreateLinkParms → M S CreateLinkParms
  create_link_parms_put o = do
    client_id ← ixdr_put x o.client_id
    lock_device ← ixdr_put x o.lock_device
    lock_timeout ← ixdr_put x o.lock_timeout
    done
        (record o { client_id = client_id; lock_device = lock_device; lock_timeout = lock_timeout })

  unfoldable pub create_link_parms_get : CreateLinkParms → M S CreateLinkParms
  create_link_parms_get o = do
    client_id ← ixdr_get x
    lock_device ← ixdr_get x
    lock_timeout ← ixdr_get x
    done
        (record o { client_id = client_id; lock_device = lock_device; lock_timeout = lock_timeout })

  unfoldable pub create_link_parms_rest : CreateLinkParms → M S CreateLinkParms
  create_link_parms_rest o = do
    device ← x.string o.device uint_max
    done (record o { device = device })

  unfoldable pub xdr_create_link_parms : CreateLinkParms → M S CreateLinkParms
  unfolding create_link_parms_slow create_link_parms_put create_link_parms_get
      create_link_parms_rest
  xdr_create_link_parms o =
      by_op x
        (do
          o2 ←
              if_inline x (3 * bytes_per_xdr_unit) (create_link_parms_slow o)
                (create_link_parms_put o)
          create_link_parms_rest o2)
        (do
          o2 ←
              if_inline x (3 * bytes_per_xdr_unit) (create_link_parms_slow o)
                (create_link_parms_get o)
          create_link_parms_rest o2)
        (do o2 ← create_link_parms_slow o; create_link_parms_rest o2)

  unfoldable pub xdr_create_link_resp : CreateLinkResp → M S CreateLinkResp
  xdr_create_link_resp o = do
    error ← xdr_device_error_code o.error
    lid ← xdr_device_link o.lid
    abort_port ← x.number u_short o.abort_port
    max_recv_size ← x.number u_int o.max_recv_size
    done (record {
      error = error;
      lid = lid;
      abort_port = abort_port;
      max_recv_size = max_recv_size;
    })

  unfoldable pub xdr_device_write_parms : DeviceWriteParms → M S DeviceWriteParms
  xdr_device_write_parms o = do
    lid ← xdr_device_link o.lid
    io_timeout ← x.number u_int o.io_timeout
    lock_timeout ← x.number u_int o.lock_timeout
    flags ← xdr_device_flags o.flags
    payload ← x.bytes o.payload uint_max
    done (record {
      lid = lid;
      io_timeout = io_timeout;
      lock_timeout = lock_timeout;
      flags = flags;
      payload = payload;
    })

  unfoldable pub xdr_device_write_resp : DeviceWriteResp → M S DeviceWriteResp
  xdr_device_write_resp o = do
    error ← xdr_device_error_code o.error
    size ← x.number u_int o.size
    done (record { error = error; size = size })
