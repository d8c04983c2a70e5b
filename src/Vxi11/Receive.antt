-- ===== src/Vxi11/Receive.antt =====
-- vxi11_receive of src/vxi11.c: its loop, on the replies of a device.
use liblxi.Base.{
  ℕ, zero, suc, ◌+◌, ◌-◌, ◌≤◌, ◌<◌, ◌≡◌, refl, ◌∙◌, ◌⊎◌, inl, inr, Bool, true, false, some, List,
  [], ◌∷◌, ◌++◌, append-nil, append_assoc, ℤ, pos, minus_one, length, drop, flat, if◌then◌else◌,
  length-append, length-drop, drop-drop, ok, fault, bounds, null, or_fault, Bytes, splice,
  write_at-splice, write_at_overrun, length-splice, splice-append, arith,
}
use liblxi.Xdr.{Xdr}
use liblxi.Core.{DeviceReadResp}
use liblxi.Rpc.{Rpc}
use liblxi.Client.{device_read_1}
use liblxi.Vxi11.{
  Vxi11Data, has_end_bit, has_term_char_bit, empty_read_resp, read_params, read_loop, vxi11_receive,
  verdict, give_up, finished, again,
}

zero_or_suc : (n : ℕ) → (n ≡ 0) ⊎ ((k : ℕ) × (n ≡ suc k))
zero_or_suc zero = inl refl
zero_or_suc (suc k) = inr (k, refl)

-- The four outcomes of a call that the loop tells apart.
Answer-cases :
    {W : Type 0} (p : ℕ × DeviceReadResp × W)
    → ((k : ℕ) × (p ≡ (suc k, p.1, p.2)))
      ⊎ ((p ≡ (0, p.1, p.2)) × (k : ℕ) × (p.1.error ≡ suc k))
      ⊎ ((p ≡ (0, p.1, p.2)) × (p.1.error ≡ 0) × (k : ℕ) × (p.1.reason ≡ suc k))
      ⊎ ((p ≡ (0, p.1, p.2)) × (p.1.error ≡ 0) × (p.1.reason ≡ 0))
Answer-cases (suc k, r, w) = inl (k, refl)
Answer-cases (zero, r, w) = elim (zero_or_suc r.error) [
  | inr (k, e) ↦ inr (inl (refl, k, e))
  | inl e ↦ elim (zero_or_suc r.reason) [
    | inr (k, f) ↦ inr (inr (inl (refl, e, k, f)))
    | inl f ↦ inr (inr (inr (refl, e, f)))
  ]
]

count-cases :
    (complete : Bool) (n len : ℕ)
    → n ≤ len
    → let status : ℤ = if complete then pos n else minus_one in
      (status ≡ minus_one) ⊎ ((m : ℕ) × (status ≡ pos m) × (m ≤ len))
count-cases true n len h = inr (n, refl, h)
count-cases false n len h = inl refl

-- The message after pieces that are stored one behind the other, the first at `offset`.
unfoldable placed : Bytes → ℕ → List Bytes → Bytes
placed message offset [] = message
placed message offset (c ∷ cs) = placed (splice message offset c) (offset + length c) cs

placed_lem :
    (cs : List Bytes) (front back : Bytes)
    → placed (front ++ back) (length front) cs ≡ front ++ (flat cs ++ drop (length (flat cs)) back)
unfolding placed
placed_lem [] front back = refl
placed_lem (c ∷ cs) front back =
    rw
      (
        splice-append front back c,
        ← append_assoc front c (drop (length c) back),
        ← length-append front c,
        placed_lem cs (front ++ c) (drop (length c) back),
        append_assoc front c,
        length-append c (flat cs),
        drop-drop (length (flat cs)) (length c) back,
        append_assoc c (flat cs),
      )
      refl

-- The verdict on each outcome.
verdict-failed : (len total k : ℕ) (r : DeviceReadResp) → verdict len total (suc k) r ≡ give_up
unfolding verdict
verdict-failed len total k r = ground arith

verdict-error :
    (len total k : ℕ) (r : DeviceReadResp) → r.error ≡ suc k → verdict len total 0 r ≡ give_up
unfolding verdict
verdict-error len total k r e = ground arith

verdict-last :
    (len total k : ℕ) (r : DeviceReadResp)
    → r.error ≡ 0
    → r.reason ≡ suc k
    → total ≤ len
    → verdict len total 0 r ≡ finished
unfolding verdict
verdict-last len total k r e f h = ground arith

verdict-more :
    (len total : ℕ) (r : DeviceReadResp)
    → r.error ≡ 0
    → r.reason ≡ 0
    → total ≤ len
    → verdict len total 0 r ≡ again
unfolding verdict has_end_bit has_term_char_bit
verdict-more len total r e f h = ground arith

module _ {S W : Type 0} (x : Xdr S) (rpc : Rpc S W) where
  -- One call of device_read for `room` bytes.
  abbrev pub ask : Vxi11Data → ℕ → ℤ → ℕ → W → ℕ × DeviceReadResp × W
  ask d c timeout room w =
      device_read_1 x rpc (read_params x rpc d timeout room) (empty_read_resp x rpc) c w

  -- The VXI-11 specification of device_read: a device sends no more bytes than it is asked for,
  -- and it gives a reason unless it has sent some and has more.
  pub record DeviceLaw : Type 0 where
    pub reply_fits :
        (d : Vxi11Data) (c : ℕ) (timeout : ℤ) (room : ℕ) (w w' : W) (status : ℕ)
        (r : DeviceReadResp)
        → ask d c timeout room w ≡ (status, r, w')
        → length r.payload ≤ room
    pub reply_moves :
        (d : Vxi11Data) (c : ℕ) (timeout : ℤ) (room : ℕ) (w w' : W) (r : DeviceReadResp)
        → ask d c timeout room w ≡ (0, r, w')
        → r.error ≡ 0
        → r.reason ≡ 0
        → 0 < length r.payload

  -- The replies to a sequence of calls from state `w` with `room` bytes free: their data, whether
  -- the last one gives a reason to stop, and the last state.
  pub data Replies (d : Vxi11Data) (c : ℕ) (timeout : ℤ)
      : ℕ → W → List Bytes → Bool → W → Type 0 where
    call_fails :
        {room : ℕ} {w w' : W} {k : ℕ} {r : DeviceReadResp}
        → ask d c timeout room w ≡ (suc k, r, w')
        → Replies d c timeout room w (r.payload ∷ []) false w'
    device_fails :
        {room : ℕ} {w w' : W} {k : ℕ} {r : DeviceReadResp}
        → ask d c timeout room w ≡ (0, r, w')
        → r.error ≡ suc k
        → Replies d c timeout room w (r.payload ∷ []) false w'
    last_reply :
        {room : ℕ} {w w' : W} {k : ℕ} {r : DeviceReadResp}
        → ask d c timeout room w ≡ (0, r, w')
        → r.error ≡ 0
        → r.reason ≡ suc k
        → Replies d c timeout room w (r.payload ∷ []) true w'
    more_follows :
        {room : ℕ} {w w1 w' : W} {r : DeviceReadResp} {cs : List Bytes} {complete : Bool}
        → ask d c timeout room w ≡ (0, r, w1)
        → r.error ≡ 0
        → r.reason ≡ 0
        → Replies d c timeout (room - length r.payload) w1 cs complete w'
        → Replies d c timeout room w (r.payload ∷ cs) complete w'

  module _ (law : DeviceLaw) (d : Vxi11Data) (c : ℕ) (timeout : ℤ) where
    -- No more bytes come than there was room for.
    Replies-fits :
        {room : ℕ} {w w' : W} {cs : List Bytes} {complete : Bool}
        → Replies d c timeout room w cs complete w'
        → length (flat cs) ≤ room
    Replies-fits (call_fails {room} {w} {w'} {k} {r} e) =
        let fits = law.reply_fits d c timeout room w w' _ r e in rw (append-nil r.payload) fits
    Replies-fits (device_fails {room} {w} {w'} {r} e _) =
        let fits = law.reply_fits d c timeout room w w' _ r e in rw (append-nil r.payload) fits
    Replies-fits (last_reply {room} {w} {w'} {r} e _ _) =
        let fits = law.reply_fits d c timeout room w w' _ r e in rw (append-nil r.payload) fits
    Replies-fits (more_follows {room} {w} {w1} {r} {cs} e _ _ rest) = omega (
      arith,
      Replies-fits rest,
      law.reply_fits d c timeout room w w1 _ r e,
      length-append r.payload (flat cs),
    )

    -- The calls always come to an end.
    Replies-total :
        (f room : ℕ) (w : W)
        → room < f
        → (cs : List Bytes) × (complete : Bool) × (w' : W) × Replies d c timeout room w cs complete
            w'
    Replies-total zero room w h = absurd (omega arith)
    Replies-total (suc f) room w h = elim (Answer-cases (ask d c timeout room w)) [
      | inl (k, e) ↦ (_, false, _, call_fails e)
      | inr (inl (e, k, bad)) ↦ (_, false, _, device_fails e bad)
      | inr (inr (inl (e, good, k, last))) ↦ (_, true, _, last_reply e good last)
      | inr (inr (inr (e, good, more))) ↦
          let moves = law.reply_moves d c timeout room w _ _ e good more in
          let fits = law.reply_fits d c timeout room w _ _ _ e in
          let (cs, complete, w', rest) =
            Replies-total f (room - length (ask d c timeout room w).1.payload) _ (omega arith) in
          (_, complete, w', more_follows e good more rest)
    ]

    -- One round on a reply that more follow.
    read_round :
        (f room offset : ℕ) (message : Bytes) (w w1 : W) (r : DeviceReadResp)
        → ask d c timeout room w ≡ (0, r, w1)
        → r.error ≡ 0
        → r.reason ≡ 0
        → offset + room ≤ length message
        → read_loop x rpc (suc f) d c timeout (offset + room) offset message w
          ≡ read_loop x rpc f d c timeout
              (offset + length r.payload + (room - length r.payload))
              (offset + length r.payload)
              (splice message offset r.payload)
              w1
    read_round f room offset message w w1 r e good more k =
        let left : offset + room - offset ≡ room = omega arith in
        let fits = law.reply_fits d c timeout room w w1 _ r e in
        let stored = write_at-splice message offset r.payload (omega arith) in
        let goes =
          verdict-more (offset + room) (offset + length r.payload) r good more (omega arith) in
        let same : offset + length r.payload + (room - length r.payload) ≡ offset + room =
          omega arith in
        let asked : ask d c timeout (offset + room - offset) w ≡ (0, r, w1) = rw left e in
        rw same (unfold read_loop in rw (asked, stored, goes, asked) refl)

    -- What the loop returns, where it stands at `offset` and has `room` bytes left.
    read_loop-Replies :
        (f room offset : ℕ) (message : Bytes) {w w' : W} {cs : List Bytes} {complete : Bool}
        → Replies d c timeout room w cs complete w'
        → room < f
        → offset + room ≤ length message
        → read_loop x rpc f d c timeout (offset + room) offset message w
          ≡ ok (
            if complete then pos (offset + length (flat cs)) else minus_one,
            placed message offset cs,
            w',
          )
    read_loop-Replies zero room offset message r h k = absurd (omega arith)
    read_loop-Replies (suc f) room offset message (call_fails {w} {w'} {k = k'} {r} e) h k =
        let left : offset + room - offset ≡ room = omega arith in
        let fits = law.reply_fits d c timeout room w w' _ r e in
        let stored = write_at-splice message offset r.payload (omega arith) in
        let asked : ask d c timeout (offset + room - offset) w ≡ (suc k', r, w') = rw left e in
        unfold read_loop placed in
        rw (asked, stored, verdict-failed (offset + room) (offset + length r.payload) k' r, asked)
          refl
    read_loop-Replies (suc f) room offset message (device_fails {w} {w'} {r} e bad) h k =
        let left : offset + room - offset ≡ room = omega arith in
        let fits = law.reply_fits d c timeout room w w' _ r e in
        let stored = write_at-splice message offset r.payload (omega arith) in
        let asked : ask d c timeout (offset + room - offset) w ≡ (0, r, w') = rw left e in
        unfold read_loop placed in
        rw (asked, stored, verdict-error (offset + room) (offset + length r.payload) _ r bad, asked)
          refl
    read_loop-Replies (suc f) room offset message (last_reply {w} {w'} {r} e good last) h k =
        let left : offset + room - offset ≡ room = omega arith in
        let fits = law.reply_fits d c timeout room w w' _ r e in
        let stored = write_at-splice message offset r.payload (omega arith) in
        let ends =
          verdict-last (offset + room) (offset + length r.payload) _ r good last (omega arith) in
        let asked : ask d c timeout (offset + room - offset) w ≡ (0, r, w') = rw left e in
        unfold read_loop placed in rw (asked, stored, ends, asked, append-nil r.payload) refl
    read_loop-Replies (suc f) room offset message
          (more_follows {w} {w1} {w'} {r} {cs} {complete} e good more rest) h k =
        let n = length r.payload in
        let fits = law.reply_fits d c timeout room w w1 _ r e in
        let moves = law.reply_moves d c timeout room w w1 r e good more in
        let kept = length-splice message offset r.payload (omega arith) in
        read_round f room offset message w w1 r e good more k
        ∙ read_loop-Replies f (room - n) (offset + n) (splice message offset r.payload) rest
            (omega arith) (omega arith)
        ∙ unfold placed in
          (let sum : offset + n + length (flat cs) ≡ offset + (n + length (flat cs)) =
              omega arith in
            rw (length-append r.payload (flat cs), sum) refl)

  -- The first reply's data is longer than the whole buffer.
  pub read_overruns :
      (f : ℕ) (d : Vxi11Data) (c : ℕ) (timeout : ℤ) (len status : ℕ) (message : Bytes)
      (r : DeviceReadResp) (w w1 : W)
      → ask d c timeout len w ≡ (status, r, w1)
      → length message < length r.payload
      → read_loop x rpc (suc f) d c timeout len 0 message w ≡ fault bounds
  read_overruns f d c timeout len status message r w w1 e h =
      let asked : ask d c timeout (len - 0) w ≡ (status, r, w1) =
        let same : len - 0 ≡ len = omega arith in rw same e in
      unfold read_loop in rw (asked, write_at_overrun message 0 r.payload (omega arith)) refl

module _ {S W : Type 0} (x : Xdr S) (rpc : Rpc S W) where
  -- vxi11_receive on any device that keeps to the specification: it returns the number of all data
  -- bytes when the last reply gives a reason to stop, and -1 when a call or the device fails. The
  -- message starts with the data of all replies, in order; the rest of it is unchanged. The message
  -- has `len` bytes and there is a client.
  pub vxi11_receive-Replies :
      (law : DeviceLaw x rpc) (d : Vxi11Data) (c : ℕ) (message : Bytes) (len : ℕ) (timeout : ℤ)
      {w w' : W} {cs : List Bytes} {complete : Bool}
      → d.rpc_client ≡ some c
      → length message ≡ len
      → Replies x rpc d c timeout len w cs complete w'
      → vxi11_receive x rpc d message len timeout w
        ≡ ok (
          if complete then pos (length (flat cs)) else minus_one,
          flat cs ++ drop (length (flat cs)) message,
          d,
          w',
        )
  unfolding vxi11_receive
  vxi11_receive-Replies law d c message len timeout {w} {w'} {cs} {complete} held h r =
      let loop =
        read_loop-Replies x rpc law d c timeout (suc len) len 0 message r (omega arith)
          (omega arith) in
      let zero_len : 0 + len ≡ len = omega arith in
      let zero_count : 0 + length (flat cs) ≡ length (flat cs) = omega arith in
      let all = placed_lem cs [] message in
      let got : or_fault d.rpc_client null ≡ ok c = rw held refl in
      rw (got, rw zero_len at loop, zero_count, all) refl

  -- On every world, with a device that keeps to the specification, vxi11_receive returns, stays
  -- inside the message buffer, and gives -1 or a count of at most `len`. The message has `len`
  -- bytes and there is a client.
  pub vxi11_receive_bounds :
      (law : DeviceLaw x rpc) (d : Vxi11Data) (c : ℕ) (message : Bytes) (len : ℕ) (timeout : ℤ)
      (w : W)
      → d.rpc_client ≡ some c
      → length message ≡ len
      → (status : ℤ) × (message' : Bytes) × (w' : W) × (vxi11_receive x rpc d message len timeout w
          ≡ ok (status, message', d, w'))
        × ((status ≡ minus_one) ⊎ ((n : ℕ) × (status ≡ pos n) × (n ≤ len)))
        × (length message' ≡ len)
  vxi11_receive_bounds law d c message len timeout w held h =
      let (cs, complete, w', r) =
        Replies-total x rpc law d c timeout (suc len) len w (omega arith) in
      let fits = Replies-fits x rpc law d c timeout r in
      let size : length (flat cs ++ drop (length (flat cs)) message) ≡ len =
        rw
          (
            length-append (flat cs) (drop (length (flat cs)) message),
            length-drop (length (flat cs)) message,
          )
          (omega arith) in
      (
        _,
        _,
        w',
        vxi11_receive-Replies law d c message len timeout held h r,
        count-cases complete (length (flat cs)) len fits,
        size,
      )

  -- When a device answers the first read with more data than the whole message buffer holds, the
  -- data is stored past the end of the buffer; the test that finds the buffer too small comes after.
  pub vxi11_receive_overruns :
      (d : Vxi11Data) (c : ℕ) (message : Bytes) (len : ℕ) (timeout : ℤ) (status : ℕ)
      (r : DeviceReadResp) (w w1 : W)
      → d.rpc_client ≡ some c
      → ask x rpc d c timeout len w ≡ (status, r, w1)
      → length message < length r.payload
      → vxi11_receive x rpc d message len timeout w ≡ fault bounds
  unfolding vxi11_receive
  vxi11_receive_overruns d c message len timeout status r w w1 held e h =
      let got : or_fault d.rpc_client null ≡ ok c = rw held refl in
      rw (got, read_overruns x rpc len d c timeout len status message r w w1 e h) refl
