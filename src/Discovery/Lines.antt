-- ===== src/Discovery/Lines.antt =====
-- get_device_id of src/vxi11.c on the replies to *IDN?: the terminators that it strips.
use liblxi.Base.{
  ℕ, suc, ◌+◌, ◌-◌, ◌≤◌, ◌<◌, ◌≡◌, refl, ◌∙◌, ◌≢◌, ◌⊎◌, inl, inr, true, false, none, some, [], ◌∷◌,
  ◌++◌, append_assoc, ℤ, pos, leb, ◌==◌, ==_refl, length, get_elem?, length-append, ok, fault,
  bounds, ◌>>=◌, Bytes, write_at, write_at-splice, write_at_overrun, splice-append, c_string,
  c_string_lem, IsText, arith,
}
use liblxi.Net.{Net}
use liblxi.Xdr.{Xdr}
use liblxi.Rpc.{Rpc, Threads}
use liblxi.Vxi11.{Vxi11Data, vxi11_connect, vxi11_send, vxi11_receive, vxi11_disconnect}
use liblxi.Discovery.{Xml, Frame}
use liblxi.Discovery.Identify.{
  id_length_max, id_req_scpi, last_char, strip_char, strip, use_reply, receive_id, request_id,
  get_device_id,
}

-- What a device may end its line with.
pub data LineEnd : Bytes → Type 0 where
  bare : LineEnd []
  lf : LineEnd (0x0a ∷ [])
  cr : LineEnd (0x0d ∷ [])
  cr_lf : LineEnd (0x0d ∷ 0x0a ∷ [])

get_elem?-append : (t r : Bytes) (b : ℕ) → get_elem? (t ++ (b ∷ r)) (length t) ≡ some b
get_elem?-append [] r b = refl
get_elem?-append (a ∷ t) r b = get_elem?-append t r b

last_char_lem : (t r : Bytes) (b : ℕ) → last_char (t ++ (b ∷ r)) (suc (length t)) ≡ ok b
unfolding last_char
last_char_lem t r b = rw (get_elem?-append t r b) refl

write_nul : (t r : Bytes) (b : ℕ) → write_at (t ++ (b ∷ r)) (length t) (0 ∷ []) ≡ ok (t ++ (0 ∷ r))
write_nul t r b =
    let fits : length t + 1 ≤ length (t ++ (b ∷ r)) = omega (arith, length-append t (b ∷ r)) in
    rw (write_at-splice (t ++ (b ∷ r)) (length t) (0 ∷ []) fits, splice-append t (b ∷ r) (0 ∷ []))
      refl

strip_char-hit :
    (c : ℕ) (t r : Bytes)
    → strip_char c (t ++ (c ∷ r)) (suc (length t)) ≡ ok (t ++ (0 ∷ r), length t)
unfolding strip_char
strip_char-hit c t r =
    let e : suc (length t) - 1 ≡ length t = omega arith in
    rw (last_char_lem t r c, ==_refl c, e, write_nul t r c) refl

strip_char-miss :
    (c b : ℕ) (t r : Bytes)
    → (b == c) ≡ false
    → strip_char c (t ++ (b ∷ r)) (suc (length t)) ≡ ok (t ++ (b ∷ r), suc (length t))
unfolding strip_char
strip_char-miss c b t r e = rw (last_char_lem t r b, e) refl

length-snoc : (t : Bytes) (b : ℕ) → length (t ++ (b ∷ [])) ≡ suc (length t)
length-snoc t b = omega (arith, length-append t (b ∷ []))

module _ (t : Bytes) (b : ℕ) where
  -- The strips at the end of a line, and one byte behind it.
  miss_line :
      (c : ℕ) (r : Bytes)
      → (b == c) ≡ false
      → strip_char c ((t ++ (b ∷ [])) ++ r) (length (t ++ (b ∷ [])))
        ≡ ok ((t ++ (b ∷ [])) ++ r, length (t ++ (b ∷ [])))
  miss_line c r e = rw (append_assoc t (b ∷ []) r, length-snoc t b) (strip_char-miss c b t r e)

hit_behind :
    (c d : ℕ) (t r : Bytes)
    → strip_char c (t ++ (d ∷ (c ∷ r))) (suc (suc (length t)))
      ≡ ok (t ++ (d ∷ (0 ∷ r)), suc (length t))
hit_behind c d t r =
    rw (append_assoc t (d ∷ []) (c ∷ r), append_assoc t (d ∷ []) (0 ∷ r), length-snoc t d) at
      (strip_char-hit c (t ++ (d ∷ [])) r)

module _ (t : Bytes) (b : ℕ) (no_lf : (b == 0x0a) ≡ false) (no_cr : (b == 0x0d) ≡ false) where
  -- Whatever it ends with, a line is cut behind its last byte.
  strip_lem :
      (eol rest : Bytes)
      → LineEnd eol
      → (rest' : Bytes) × (strip
            ((t ++ (b ∷ [])) ++ (eol ++ (0 ∷ rest)))
            (length eol + length (t ++ (b ∷ [])))
          ≡ ok ((t ++ (b ∷ [])) ++ (0 ∷ rest')))
  unfolding strip
  strip_lem eol rest bare =
      let e : 0 + length (t ++ (b ∷ [])) ≡ length (t ++ (b ∷ [])) = omega arith in
      (rest, rw (e, miss_line t b 0x0a (0 ∷ rest) no_lf, miss_line t b 0x0d (0 ∷ rest) no_cr) refl)
  strip_lem eol rest lf =
      let e : 1 + length (t ++ (b ∷ [])) ≡ suc (length (t ++ (b ∷ []))) = omega arith in
      (
        0 ∷ rest,
        rw
            (
              e,
              strip_char-hit 0x0a (t ++ (b ∷ [])) (0 ∷ rest),
              miss_line t b 0x0d (0 ∷ (0 ∷ rest)) no_cr,
            )
            refl,
      )
  strip_lem eol rest cr =
      let e : 1 + length (t ++ (b ∷ [])) ≡ suc (length (t ++ (b ∷ []))) = omega arith in
      (
        0 ∷ rest,
        rw
            (
              e,
              strip_char-miss 0x0a 0x0d (t ++ (b ∷ [])) (0 ∷ rest) refl,
              strip_char-hit 0x0d (t ++ (b ∷ [])) (0 ∷ rest),
            )
            refl,
      )
  strip_lem eol rest cr_lf =
      let e : 2 + length (t ++ (b ∷ [])) ≡ suc (suc (length (t ++ (b ∷ [])))) = omega arith in
      (
        0 ∷ (0 ∷ rest),
        rw
            (
              e,
              hit_behind 0x0a 0x0d (t ++ (b ∷ [])) (0 ∷ rest),
              strip_char-hit 0x0d (t ++ (b ∷ [])) (0 ∷ (0 ∷ rest)),
            )
            refl,
      )

strip_newline : (r : Bytes) → strip (0x0a ∷ r) 1 ≡ fault bounds
unfolding strip strip_char last_char
strip_newline r = rw (strip_char-hit 0x0a [] r) refl

leb_one : {n : ℕ} → 1 ≤ n → leb 1 n ≡ true
leb_one h = ground arith

ne→false : (a b : ℕ) → a ≢ b → (a == b) ≡ false
ne→false a b h = ground arith

module _ {S W Doc Node : Type 0} (x : Xdr S) (rpc : Rpc S W) (threads : Threads Vxi11Data W)
    (net : Net W) (xml : Xml Doc Node) (rounds : ℕ) (frame : Frame) (address id : Bytes)
    (timeout : ℤ) (n : ℕ) (w w1 w2 w3 w4 : W) (d1 d2 d3 d4 : Vxi11Data) (device sent : ℕ)
    (status : ℤ) (id1 : Bytes)
    (connects : vxi11_connect x rpc threads rounds frame.vxi11_data address (pos 0) none timeout w
      ≡ ok (pos device, d1, w1))
    (sends : vxi11_send x rpc d1 frame.write_resp id_req_scpi (length id_req_scpi) timeout w1
      ≡ ok (pos sent, d2, w2))
    (receives : vxi11_receive x rpc d2 id id_length_max timeout w2 ≡ ok (pos n, id1, d3, w3))
    (disconnects : vxi11_disconnect x rpc d3 frame.device_error w3 ≡ ok (status, d4, w4)) where
  replied :
      get_device_id x rpc threads net xml rounds frame address id timeout w
      ≡ use_reply x rpc threads net xml rounds frame d3 address id1 n timeout w3
  unfolding get_device_id request_id receive_id
  replied = rw (connects, sends, receives) refl

  replied-strip :
      (id2 : Bytes)
      → 1 ≤ n
      → write_at id1 n (0 ∷ []) ≡ ok id2
      → use_reply x rpc threads net xml rounds frame d3 address id1 n timeout w3
        ≡ (do id3 ← strip id2 n; ok (pos 0, id3, w4))
  unfolding use_reply
  replied-strip id2 h e = rw (disconnects, e, leb_one h) refl

  -- Where connecting, sending, receiving and disconnecting succeed, and the reply is a text that
  -- does not end in CR or LF and is not empty, with CR, LF, CR LF or nothing behind it, and leaves
  -- room in the buffer, get_device_id returns 0 and that text as its string, without its end.
  pub get_device_id-line :
      (t : Bytes) (b : ℕ) (eol : Bytes) (z : ℕ) (back : Bytes)
      → IsText (t ++ (b ∷ []))
      → b ≢ 0x0a
      → b ≢ 0x0d
      → LineEnd eol
      → id1 ≡ ((t ++ (b ∷ [])) ++ eol) ++ (z ∷ back)
      → n ≡ length ((t ++ (b ∷ [])) ++ eol)
      → (id' : Bytes) × (get_device_id x rpc threads net xml rounds frame address id timeout w
          ≡ ok (pos 0, id', w4))
        × (c_string id' ≡ ok (t ++ (b ∷ [])))
  get_device_id-line t b eol z back text no_lf no_cr line_end e size =
      let line : Bytes = t ++ (b ∷ []) in
      let many : 1 ≤ n = rw size (omega (arith, length-append line eol, length-snoc t b)) in
      let ended : write_at id1 n (0 ∷ []) ≡ ok ((line ++ eol) ++ (0 ∷ back)) =
        rw (e, size) (write_nul (line ++ eol) back z) in
      let (rest, cut) =
        strip_lem t b (ne→false b 0x0a no_lf) (ne→false b 0x0d no_cr) eol back line_end in
      let total : n ≡ length eol + length line = rw size (omega (arith, length-append line eol)) in
      let stripped : strip ((line ++ eol) ++ (0 ∷ back)) n ≡ ok (line ++ (0 ∷ rest)) =
        rw (total, append_assoc line eol (0 ∷ back)) cut in
      (
        line ++ (0 ∷ rest),
        replied ∙ (rw (replied-strip ((line ++ eol) ++ (0 ∷ back)) many ended, stripped) refl),
        c_string_lem line rest text,
      )

  full :
      length id1 ≤ n
      → get_device_id x rpc threads net xml rounds frame address id timeout w ≡ fault bounds
  unfolding use_reply
  full h =
      let over : length id1 < n + 1 = omega arith in
      replied ∙ (rw (disconnects, write_at_overrun id1 n (0 ∷ []) over) refl)

  newline :
      (back : Bytes)
      → n ≡ 1
      → id1 ≡ 0x0a ∷ back
      → get_device_id x rpc threads net xml rounds frame address id timeout w ≡ fault bounds
  newline [] one e = full (rw (one, e) (omega arith))
  newline (z ∷ back) one e =
      let ended : write_at id1 n (0 ∷ []) ≡ ok (0x0a ∷ (0 ∷ back)) =
        rw (e, one) (write_nul (0x0a ∷ []) back z) in
      let some_byte : 1 ≤ n = rw one (omega arith) in
      let step = replied-strip (0x0a ∷ (0 ∷ back)) some_byte ended in
      replied ∙ (rw (step, one, strip_newline (0 ∷ back)) refl)

  -- Where the four calls succeed, a reply that is a newline alone makes get_device_id read in front
  -- of its buffer, and a reply that fills the buffer makes it write behind it.
  pub get_device_id_overruns :
      ((back : Bytes) × (n ≡ 1) × (id1 ≡ 0x0a ∷ back)) ⊎ (length id1 ≤ n)
      → get_device_id x rpc threads net xml rounds frame address id timeout w ≡ fault bounds
  get_device_id_overruns (inl (back, one, e)) = newline back one e
  get_device_id_overruns (inr h) = full h
