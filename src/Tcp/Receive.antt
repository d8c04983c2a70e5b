-- ===== src/Tcp/Receive.antt =====
-- tcp_receive_ of src/tcp.c: its loop, on the pieces in which a reply comes.
pub mod Reply
use mathlib.Core.List.{append-nil}
use liblxi.Base.{
  ℕ, zero, suc, ◌+◌, ◌-◌, ◌*◌, ◌≤◌, ◌<◌, ◌≡◌, refl, ap, ◌∙◌, sym, ◌≢◌, ◌⊎◌, inl, inr, List, [], ◌∷◌,
  ◌++◌, ℤ, pos, negsuc, minus_one, length, take, drop, length-append, append_assoc, drop-drop,
  drop-append, Run, ok, ◌>>=◌, Bytes, splice, flat, write_at, write_at-splice, length-splice,
  splice-nil, splice-append, arith,
}
use liblxi.Net.{Net, RecvLaw, Received, recv_failed, received}
use liblxi.Tcp.{TcpData, timeval_of_ms, recv_loop, receive_with}

-- The buffer after the pieces: each one goes to the length of the one before it.
unfoldable pub stored : Bytes → ℕ → List Bytes → Bytes
stored message n [] = message
stored message n (c ∷ cs) = stored (splice message n c) (length c) cs

-- The answers that recv() gives, from state `w` with `room` bytes free: the pieces, then an end.
pub data Delivers {W : Type 0} (net : Net W) (fd flags : ℤ) : ℕ → W → List Bytes → W → Type 0 where
  fails :
      {room : ℕ} {w w' : W}
      → net.recv fd room flags w ≡ (recv_failed, w')
      → Delivers net fd flags room w [] w'
  ends :
      {room : ℕ} {w w' : W}
      → net.recv fd room flags w ≡ (received [], w')
      → Delivers net fd flags room w [] w'
  piece :
      {room : ℕ} {w w1 w' : W} {x : ℕ} {c : Bytes} {cs : List Bytes}
      → net.recv fd room flags w ≡ (received (x ∷ c), w1)
      → Delivers net fd flags (room - suc (length c)) w1 cs w'
      → Delivers net fd flags room w ((x ∷ c) ∷ cs) w'

Received-cases {ℓ} :
    {W : Type ℓ} (p : Received × W)
    → ((w' : W) × (p ≡ (recv_failed, w')))
      ⊎ ((w' : W) × (p ≡ (received [], w')))
      ⊎ ((x : ℕ) × (c : Bytes) × (w' : W) × (p ≡ (received (x ∷ c), w')))
Received-cases (recv_failed, w') = inl (w', refl)
Received-cases (received [], w') = inr (inl (w', refl))
Received-cases (received (x ∷ c), w') = inr (inr (x, c, w', refl))

module _ {W : Type 0} (net : Net W) (law : RecvLaw net) (fd flags : ℤ) where
  -- One round on a piece of at least one byte.
  recv_round :
      (f n room count : ℕ) (message : Bytes) (w w1 : W) (x : ℕ) (c : Bytes)
      → net.recv fd room flags w ≡ (received (x ∷ c), w1)
      → n + room ≤ length message
      → recv_loop net (suc f) fd flags n room count message w
        ≡ recv_loop net f fd flags
            (suc (length c))
            (room - suc (length c))
            (count + suc (length c))
            (splice message n (x ∷ c))
            w1
  unfolding recv_loop
  recv_round f n room count message w w1 x c e h =
      let fits : n + suc (length c) ≤ length message =
        omega (arith, law.recv_fits fd room flags w w1 _ e) in
      ground (arith, write_at-splice message n (x ∷ c) fits)

  -- The loop, entered with `n` bytes from the round before, on any sequence of pieces.
  recv_loop-Delivers :
      (f n room count : ℕ) (message : Bytes) {w w' : W} {cs : List Bytes}
      → Delivers net fd flags room w cs w'
      → room < f
      → n + room ≤ length message
      → recv_loop net f fd flags n room count message w
        ≡ ok (pos (count + length (flat cs)), stored message n cs, w')
  recv_loop-Delivers zero n room count message d h k = absurd (omega arith)
  recv_loop-Delivers (suc f) n room count message (fails e) h k =
      unfold recv_loop stored in ground arith
  recv_loop-Delivers (suc f) n room count message (ends e) h k =
      unfold recv_loop stored in
      ground (arith, write_at-splice message n [] (omega arith), splice-nil message n)
  recv_loop-Delivers (suc f) n room count message (piece {w} {w1} {x} {c} {cs} e d) h k =
      let fits : suc (length c) ≤ room = law.recv_fits fd room flags w w1 _ e in
      let kept = length-splice message n (x ∷ c) (omega arith) in
      recv_round f n room count message w w1 x c e k
      ∙ recv_loop-Delivers f (suc (length c)) (room - suc (length c)) (count + suc (length c))
          (splice message n (x ∷ c)) d (omega arith) (omega arith)
      ∙ unfold stored in (ground (arith, length-append c (flat cs)))

  -- The loop always meets such a sequence, and it ends.
  Delivers-total :
      (f room : ℕ) (w : W)
      → room < f
      → (cs : List Bytes) × (w' : W) × Delivers net fd flags room w cs w'
  Delivers-total zero room w h = absurd (omega arith)
  Delivers-total (suc f) room w h = elim (Received-cases (net.recv fd room flags w)) [
    | inl (w', e) ↦ ([], w', fails e)
    | inr (inl (w', e)) ↦ ([], w', ends e)
    | inr (inr (x, c, w1, e)) ↦
        let fits : suc (length c) ≤ room = law.recv_fits fd room flags w w1 _ e in
        let (cs, w', d) = Delivers-total f (room - suc (length c)) w1 (omega arith) in
        ((x ∷ c) ∷ cs, w', piece e d)
  ]

  -- No more bytes come than there was room for.
  Delivers-fits :
      {room : ℕ} {w w' : W} {cs : List Bytes}
      → Delivers net fd flags room w cs w'
      → length (flat cs) ≤ room
  Delivers-fits (fails e) = omega arith
  Delivers-fits (ends e) = omega arith
  Delivers-fits (piece {w} {w1} {c} {cs} e d) =
      omega (arith, Delivers-fits d, law.recv_fits fd _ flags w w1 _ e, length-append c (flat cs))

length-stored :
    (cs : List Bytes) (message : Bytes) (n : ℕ)
    → n + length (flat cs) ≤ length message
    → length (stored message n cs) ≡ length message
unfolding stored
length-stored [] message n h = refl
length-stored (c ∷ cs) message n h =
    let sum = length-append c (flat cs) in
    let kept = length-splice message n c (omega arith) in
    length-stored cs (splice message n c) (length c) (omega arith) ∙ kept

-- A first and a second piece are stored one behind the other.
stored_two :
    (message a b : Bytes)
    → stored message 0 (a ∷ b ∷ []) ≡ a ++ (b ++ drop (length a + length b) message)
unfolding stored
stored_two message a b =
    let e : 0 + length a ≡ length a = omega arith in
    rw (e, splice-append a (drop (length a) message) b, drop-drop (length b) (length a) message)
      refl

stored_few :
    (message : Bytes) (cs : List Bytes)
    → length cs ≤ 2
    → stored message 0 cs ≡ flat cs ++ drop (length (flat cs)) message
stored_few message [] h = unfold stored in refl
stored_few message (a ∷ []) h =
    unfold stored in (let e : 0 + length a ≡ length a = omega arith in rw (e, append-nil) refl)
stored_few message (a ∷ b ∷ []) h =
    stored_two message a b ∙ rw (append-nil, length-append a b, append_assoc) refl
stored_few message (a ∷ b ∷ c ∷ cs) h = absurd (omega arith)

-- Of three pieces of one length the third is stored over the second.
stored_third :
    (message a b c : Bytes)
    → length a ≡ length b
    → length b ≡ length c
    → stored message 0 (a ∷ b ∷ c ∷ []) ≡ a ++ (c ++ drop (length a + length b) message)
stored_third message a b c h k =
    unfold stored in
    ap (λ (m : Bytes). splice m (length b) c) (unfold stored in stored_two message a b)
    ∙ rw (← h) (
        splice-append a (b ++ drop (length a + length a) message) c
        ∙ rw (← k) (rw (drop-append b (drop (length a + length a) message)) refl))

length-flat_three :
    (a b c : Bytes) → length (flat (a ∷ b ∷ c ∷ [])) ≡ length a + length b + length c
length-flat_three a b c = rw (append-nil, length-append a (b ++ c), length-append b c) (omega arith)
