-- ===== src/Vxi11/Send.antt =====
-- vxi11_send of src/vxi11.c: what a caller gets.
use liblxi.Base.{
  ℕ, zero, suc, ◌^◌, ◌≤◌, ◌<◌, ◌≡◌, ◌≢◌, refl, ◌⊎◌, inl, inr, true, false, some, ℤ, pos, minus_one,
  ltb, length, take, take_all, ◌++◌, length-take, ok, null, or_fault, Bytes, read_at, read_at_lem,
  ◌==◌, arith,
}
use liblxi.Xdr.{Xdr}
use liblxi.Core.{DeviceWriteParms, DeviceWriteResp}
use liblxi.Rpc.{Rpc}
use liblxi.Client.{device_write_1}
use liblxi.Vxi11.{Vxi11Data, to_u32, to_int, vxi11_send}

to_int-pos : (v : ℕ) → v < 2 ^ 31 → to_int v ≡ pos v
to_int-pos v h = ground arith

module _ {S W : Type 0} (x : Xdr S) (rpc : Rpc S W) where
  -- The VXI-11 specification of device_write. `accepted` is what the device has accepted over a link
  -- so far. A call that succeeds accepts a front part of the payload for the link that it names, and
  -- the size in the reply is the length of that part.
  pub record AcceptLaw : Type 0 where
    pub accepted : ℕ → W → Bytes
    pub accepts :
        (parms : DeviceWriteParms) (old r : DeviceWriteResp) (c : ℕ) (w w' : W)
        → device_write_1 x rpc parms old c w ≡ (0, r, w')
        → (r.size ≤ length parms.payload)
          × (accepted parms.lid w' ≡ accepted parms.lid w ++ take r.size parms.payload)

  abbrev pub write_params : Vxi11Data → Bytes → ℕ → ℤ → DeviceWriteParms
  write_params d message len timeout = record {
    lid = d.link_resp.lid;
    io_timeout = to_u32 timeout;
    lock_timeout = 0;
    flags = 9;
    payload = take len message;
  }

  -- On every world, vxi11_send returns -1 when the call fails, and otherwise the number of bytes that
  -- the device has accepted by this call, whatever error it reports: the device has accepted on the
  -- session's link the first that many bytes of the message, which are at most `len`. The message
  -- has `len` bytes, fewer than 2^31, there is a client, and the device keeps to the specification.
  pub vxi11_send_bounds :
      (law : AcceptLaw) (d : Vxi11Data) (write_resp : DeviceWriteResp) (c : ℕ) (message : Bytes)
      (len : ℕ) (timeout : ℤ) (w : W)
      → d.rpc_client ≡ some c
      → length message ≡ len
      → len < 2 ^ 31
      → let called = device_write_1 x rpc (write_params d message len timeout) write_resp c w in
        (status : ℤ) × (w' : W) × (vxi11_send x rpc d write_resp message len timeout w
          ≡ ok (status, d, w'))
        × (((called.0 ≢ 0) × (status ≡ minus_one))
            ⊎ ((n : ℕ) × (called.0 ≡ 0)
                × (status ≡ pos n)
                × (n ≤ len)
                × (law.accepted d.link_resp.lid w'
                    ≡ law.accepted d.link_resp.lid w ++ take n message)))
  unfolding vxi11_send
  vxi11_send_bounds law d write_resp c message len timeout w held h small =
      go (device_write_1 x rpc (write_params d message len timeout) write_resp c w) refl
    where
      got : or_fault d.rpc_client null ≡ ok c
      got = rw held refl

      all : take len message ≡ message
      all = rw (← h) (take_all message)

      whole : read_at message 0 len ≡ ok (take len message)
      whole = read_at_lem message 0 len (omega arith)

      go :
          (p : ℕ × DeviceWriteResp × W)
          → device_write_1 x rpc (write_params d message len timeout) write_resp c w ≡ p
          → (status : ℤ) × (w' : W) × (vxi11_send x rpc d write_resp message len timeout w
              ≡ ok (status, d, w'))
            × (((p.0 ≢ 0) × (status ≡ minus_one))
                ⊎ ((n : ℕ) × (p.0 ≡ 0)
                    × (status ≡ pos n)
                    × (n ≤ len)
                    × (law.accepted d.link_resp.lid w'
                        ≡ law.accepted d.link_resp.lid w ++ take n message)))
      go (suc k, r, w') e =
          let bad : (suc k == 0) ≡ false = ground arith in
          let positive : suc k ≢ 0 = λ z. absurd (omega arith) in
          (minus_one, w', rw (whole, got, e, bad) refl, inl (positive, refl))
      go (zero, r, w') e =
          let size = length-take len message in
          let (fits, more) =
            law.accepts (write_params d message len timeout) write_resp r c w w' e in
          let in_range : ltb r.size (2 ^ 31) ≡ true = ground arith in
          let n_le : r.size ≤ len = omega arith in
          (
            pos r.size,
            w',
            rw (whole, got, e, in_range) refl,
            inr (r.size, refl, refl, n_le, rw all at more),
          )
