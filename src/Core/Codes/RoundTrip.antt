-- ===== src/Core/Codes/RoundTrip.antt =====
-- The routines of src/vxi11core_xdr.c in pairs: what one side encodes, the other side decodes.
use liblxi.Base.{◌≤◌, ◌≡◌, ◌∙◌, ap, [], ◌++◌, some, length, Bytes}
use liblxi.Xdr.{Xdr, encode, decode, M}
use liblxi.Xdr.Rules.{Observer, XdrLaw, Codes}
use liblxi.Core.Wire.{
  IsCreateLinkParms, IsCreateLinkResp, IsDeviceDocmdParms, IsDeviceDocmdResp,
  IsDeviceEnableSrqParms, IsDeviceError, IsDeviceGenericParms, IsDeviceLockParms, IsDeviceReadParms,
  IsDeviceReadResp, IsDeviceReadStbResp, IsDeviceRemoteFunc, IsDeviceWriteParms, IsDeviceWriteResp,
  wire_create_link_parms, wire_create_link_resp, wire_device_docmd_parms, wire_device_docmd_resp,
  wire_device_enable_srq_parms, wire_device_error, wire_device_generic_parms,
  wire_device_lock_parms, wire_device_read_parms, wire_device_read_resp, wire_device_read_stb_resp,
  wire_device_remote_func, wire_device_write_parms, wire_device_write_resp,
}
use liblxi.Core.Routines.{
  xdr_create_link_parms, xdr_create_link_resp, xdr_device_error, xdr_device_write_parms,
  xdr_device_write_resp,
}
use liblxi.Core.Routines.Read.{
  xdr_device_read_parms, xdr_device_read_resp, xdr_device_read_stb_resp,
}
use liblxi.Core.Routines.Control.{
  xdr_device_docmd_parms, xdr_device_docmd_resp, xdr_device_enable_srq_parms,
  xdr_device_generic_parms, xdr_device_lock_parms, xdr_device_remote_func,
}
use liblxi.Core.Codes.{
  xdr_create_link_parms-Codes, xdr_create_link_resp-Codes, xdr_device_error-Codes,
  xdr_device_write_parms-Codes, xdr_device_write_resp-Codes,
}
use liblxi.Core.Codes.Read.{
  xdr_device_read_parms-Codes, xdr_device_read_resp-Codes, xdr_device_read_stb_resp-Codes,
}
use liblxi.Core.Codes.Control.{
  xdr_device_docmd_parms-Codes, xdr_device_docmd_resp-Codes, xdr_device_enable_srq_parms-Codes,
  xdr_device_generic_parms-Codes, xdr_device_lock_parms-Codes, xdr_device_remote_func-Codes,
}

-- A valid object that is encoded on a fresh stream with room for it is decoded, over any old object,
-- from any stream that begins with the bytes written; what follows them is left.
unfoldable pub RoundTrips :
    {S A : Type 0} → Xdr S → Observer S → (A → M S A) → (A → Bytes) → (A → Type 0) → Type 0
RoundTrips {S} {A} x obs routine wire IsValid =
    (a old : A) (s t : S) (rest : Bytes)
    → IsValid a
    → x.x_op s ≡ encode
    → obs.pending s ≡ 0
    → obs.written s ≡ []
    → length (wire a) ≤ obs.room s
    → x.x_op t ≡ decode
    → obs.pending t ≡ 0
    → (s' : S) × (routine a s ≡ some (a, s'))
      × (obs.unread t ≡ obs.written s' ++ rest
          → (t' : S) × (routine old t ≡ some (a, t')) × (obs.unread t' ≡ rest))

Codes-RoundTrips :
    {S A : Type 0} {x : Xdr S} {obs : Observer S} {routine : A → M S A} {wire : A → Bytes}
    {IsValid : A → Type 0}
    → Codes x obs routine wire IsValid
    → RoundTrips x obs routine wire IsValid
unfolding RoundTrips
Codes-RoundTrips {x} {obs} {routine} {wire} c a old s t rest valid op pend fresh room op' pend' =
    let (s', e, w, _, _, _) = (c.writes a valid).run s op pend room in
    let written : obs.written s' ≡ wire a = w ∙ ap (λ (b : Bytes). b ++ wire a) fresh in
    (
      s',
      e,
      λ u.
          let (t', e', left, _, _) =
            (c.reads old a valid).run t rest op' pend'
              (u ∙ ap (λ (b : Bytes). b ++ rest) written) in
          (t', e', left),
    )

module _ {S : Type 0} (x : Xdr S) (obs : Observer S) (law : XdrLaw x obs) where
  -- The seven requests that a client of the core channel sends are decoded as they were encoded, on
  -- any streams that keep to the XDR standard.
  pub requests_round_trip :
      RoundTrips x obs (xdr_create_link_parms x) wire_create_link_parms IsCreateLinkParms
      × RoundTrips x obs (xdr_device_write_parms x) wire_device_write_parms IsDeviceWriteParms
      × RoundTrips x obs (xdr_device_read_parms x) wire_device_read_parms IsDeviceReadParms
      × RoundTrips x obs (xdr_device_generic_parms x) wire_device_generic_parms IsDeviceGenericParms
      × RoundTrips x obs (xdr_device_lock_parms x) wire_device_lock_parms IsDeviceLockParms
      × RoundTrips x obs
          (xdr_device_enable_srq_parms x)
          wire_device_enable_srq_parms
          IsDeviceEnableSrqParms
      × RoundTrips x obs (xdr_device_docmd_parms x) wire_device_docmd_parms IsDeviceDocmdParms
  requests_round_trip = (
    Codes-RoundTrips (xdr_create_link_parms-Codes x obs law),
    Codes-RoundTrips (xdr_device_write_parms-Codes x obs law),
    Codes-RoundTrips (xdr_device_read_parms-Codes x obs law),
    Codes-RoundTrips (xdr_device_generic_parms-Codes x obs law),
    Codes-RoundTrips (xdr_device_lock_parms-Codes x obs law),
    Codes-RoundTrips (xdr_device_enable_srq_parms-Codes x obs law),
    Codes-RoundTrips (xdr_device_docmd_parms-Codes x obs law),
  )

  -- The seven other messages, which are the six replies and the address of an interrupt channel, are
  -- decoded as they were encoded, on any streams that keep to the XDR standard.
  pub replies_round_trip :
      RoundTrips x obs (xdr_device_error x) wire_device_error IsDeviceError
      × RoundTrips x obs (xdr_create_link_resp x) wire_create_link_resp IsCreateLinkResp
      × RoundTrips x obs (xdr_device_write_resp x) wire_device_write_resp IsDeviceWriteResp
      × RoundTrips x obs (xdr_device_read_resp x) wire_device_read_resp IsDeviceReadResp
      × RoundTrips x obs (xdr_device_read_stb_resp x) wire_device_read_stb_resp IsDeviceReadStbResp
      × RoundTrips x obs (xdr_device_docmd_resp x) wire_device_docmd_resp IsDeviceDocmdResp
      × RoundTrips x obs (xdr_device_remote_func x) wire_device_remote_func IsDeviceRemoteFunc
  replies_round_trip = (
    Codes-RoundTrips (xdr_device_error-Codes x obs law),
    Codes-RoundTrips (xdr_create_link_resp-Codes x obs law),
    Codes-RoundTrips (xdr_device_write_resp-Codes x obs law),
    Codes-RoundTrips (xdr_device_read_resp-Codes x obs law),
    Codes-RoundTrips (xdr_device_read_stb_resp-Codes x obs law),
    Codes-RoundTrips (xdr_device_docmd_resp-Codes x obs law),
    Codes-RoundTrips (xdr_device_remote_func-Codes x obs law),
  )
