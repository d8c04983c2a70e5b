-- ===== src/Server/Answers.antt =====
-- What the server of src/vxi11core_svc.c answers to the calls that the client's stubs make.
use liblxi.Base.{
  ◌≤◌, ◌≡◌, refl, ap, ◌∙◌, Bool, true, some, List, [], ◌∷◌, ◌++◌, ℤ, is_positive, length, Bytes,
  inl, inr, Bool-cases,
}
use liblxi.Xdr.{Xdr, encode, decode, M}
use liblxi.Xdr.Rules.{Observer, XdrLaw, Codes}
use liblxi.Server.{Ended, returned, exited, reply, answer, serve, device_core_1}
use liblxi.Server.Interface.{Svc, Device}
use liblxi.Server.Procedures.{
  Procedure, linking, writing, reading, reading_stb, triggering, clearing, going_remote,
  going_local, locking, unlocking, enabling_srq, commanding, unlinking, interrupting, number, Arg,
  Res, IsArg, IsRes, wire_arg, wire_res, zeroed, xdr_res, xdr_arg, xdr_arg-Codes, xdr_res-Codes,
  local,
}

-- The world when a handler has ended.
abbrev pub last : {W : Type 0} → Ended W → W
last (returned w) = w
last (exited w) = w

-- The RPC library's promises. `request` is the stream of the call's arguments, `blank` the stream
-- that a reply is encoded on, and `replies` are the results sent so far. A reply that the routine
-- encodes is sent; freeing sends nothing.
pub record SvcLaw {S W : Type 0} (x : Xdr S) (obs : Observer S) (svc : Svc S W) : Type 1 where
  pub request : W → S
  pub blank : S
  pub replies : W → List Bytes
  pub blank_encodes : x.x_op blank ≡ encode
  pub blank_pending : obs.pending blank ≡ 0
  pub blank_written : obs.written blank ≡ []
  pub getargs_decodes :
      {A : Type 0} (f : A → M S A) (old a : A) (s : S) (w : W)
      → f old (request w) ≡ some (a, s)
      → (w' : W) × (svc.svc_getargs f old w ≡ (some a, w')) × (replies w' ≡ replies w)
  pub sendreply_sends :
      {B : Type 0} (f : B → M S B) (r r' : B) (s : S) (w : W)
      → f r blank ≡ some (r', s)
      → (w' : W) × (svc.svc_sendreply f r w ≡ (true, w'))
        × (replies w' ≡ replies w ++ (obs.written s ∷ []))
  pub freeargs_keeps :
      {A : Type 0} (f : A → M S A) (a : A) (w : W) → replies (svc.svc_freeargs f a w).1 ≡ replies w

module _ {S W : Type 0} (x : Xdr S) (obs : Observer S) (svc : Svc S W)
    (law : SvcLaw x obs svc) where
  -- In the world `w`, an implementation's function answers `a` with `r` and a result that is not
  -- zero, and leaves sending to the dispatcher.
  pub record Implements {A B : Type 0} (local : A → W → ℤ × B × W) (a : A) (r : B) (w : W)
      : Type 0 where
    pub retval : ℤ
    pub world : W
    pub runs : local a w ≡ (retval, r, world)
    pub succeeds : is_positive retval ≡ true
    pub sends_nothing : law.replies world ≡ law.replies w

  reply_sends :
      {B : Type 0} {xb : B → M S B} {wb : B → Bytes} {Vb : B → Type 0}
      → Codes x obs xb wb Vb
      → (retval : ℤ) (r : B) (w : W) → Vb r
      → length (wb r) ≤ obs.room law.blank
      → is_positive retval ≡ true
      → law.replies (reply svc xb retval r w) ≡ law.replies w ++ (wb r ∷ [])
  unfolding reply
  reply_sends {xb} {wb} cb retval r w valid room positive =
      let (s, e, written, _, _, _) =
        (cb.writes r valid).run law.blank law.blank_encodes law.blank_pending room in
      let (w', sent, more) = law.sendreply_sends xb r r s w e in
      let content : obs.written s ≡ wb r =
        written ∙ ap (λ (b : Bytes). b ++ wb r) law.blank_written in
      rw (positive, sent) (more ∙ ap (λ (b : Bytes). law.replies w ++ (b ∷ [])) content)

  answer_replies :
      {A B : Type 0} (xa : A → M S A) {xb : B → M S B} {wb : B → Bytes} {Vb : B → Type 0}
      → Codes x obs xb wb Vb
      → (run : A → W → ℤ × B × W) (freeresult : (B → M S B) → B → W → Bool × W) (a : A) (r : B)
        (w : W)
      → ((w' : W) → law.replies (freeresult xb r w').1 ≡ law.replies w')
      → Vb r
      → length (wb r) ≤ obs.room law.blank
      → Implements run a r w
      → law.replies (last (answer svc xa xb run freeresult a w)) ≡ law.replies w ++ (wb r ∷ [])
  unfolding answer
  answer_replies xa {xb} {wb} cb run freeresult a r w frees vb room impl =
      let ran = impl.runs in
      let w2 : W = reply svc xb impl.retval r impl.world in
      let (freed, w3) = svc.svc_freeargs xa a w2 in
      let total : law.replies w3 ≡ law.replies w ++ (wb r ∷ []) =
        law.freeargs_keeps xa a w2
        ∙ reply_sends cb impl.retval r impl.world vb room impl.succeeds
        ∙ ap (λ (l : List Bytes). l ++ (wb r ∷ [])) impl.sends_nothing in
      elim (Bool-cases freed) [
        | inl all ↦ rw (ran, all) (frees w3 ∙ total)
        | inr some_left ↦ rw (ran, some_left) total
      ]

  serve_replies :
      {A B : Type 0} {xa : A → M S A} {wa : A → Bytes} {Va : A → Type 0} {xb : B → M S B}
      {wb : B → Bytes} {Vb : B → Type 0}
      → Codes x obs xa wa Va
      → Codes x obs xb wb Vb
      → (old : A) (run : A → W → ℤ × B × W) (freeresult : (B → M S B) → B → W → Bool × W) (a : A)
        (r : B) (w : W) (rest : Bytes)
      → ((w' : W) → law.replies (freeresult xb r w').1 ≡ law.replies w')
      → Va a
      → Vb r
      → x.x_op (law.request w) ≡ decode
      → obs.pending (law.request w) ≡ 0
      → obs.unread (law.request w) ≡ wa a ++ rest
      → length (wb r) ≤ obs.room law.blank
      → Implements run a r (svc.svc_getargs xa old w).1
      → law.replies (last (serve svc xa old xb run freeresult w)) ≡ law.replies w ++ (wb r ∷ [])
  serve_replies {xa} {xb} {wb} ca cb old run freeresult a r w rest frees va vb op pend left room
        impl =
      let (s, e, _, _, _) = (ca.reads old a va).run (law.request w) rest op pend left in
      let (w1, got, same) = law.getargs_decodes xa old a s w e in
      let step : serve svc xa old xb run freeresult w ≡ answer svc xa xb run freeresult a w1 =
        unfold serve in rw (got, serve, got) refl in
      rw step (
        answer_replies xa cb run freeresult a r w1 frees vb room (rw got at impl)
        ∙ ap (λ (l : List Bytes). l ++ (wb r ∷ [])) same)

module _ {S W : Type 0} (x : Xdr S) (svc : Svc S W) (device : Device S W) where
  -- What the switch of device_core_1 comes to on the number of a procedure.
  pub device_core_1-number :
      (p : Procedure) (w : W)
      → device_core_1 x svc device (number p) w
        ≡ serve svc
            (xdr_arg x p)
            (zeroed p)
            (xdr_res x p)
            (local device p)
            device.device_core_1_freeresult
            w
  unfolding device_core_1
  device_core_1-number linking w = refl
  device_core_1-number writing w = refl
  device_core_1-number reading w = refl
  device_core_1-number reading_stb w = refl
  device_core_1-number triggering w = refl
  device_core_1-number clearing w = refl
  device_core_1-number going_remote w = refl
  device_core_1-number going_local w = refl
  device_core_1-number locking w = refl
  device_core_1-number unlocking w = refl
  device_core_1-number enabling_srq w = refl
  device_core_1-number commanding w = refl
  device_core_1-number unlinking w = refl
  device_core_1-number interrupting w = refl

module _ {S W : Type 0} (x : Xdr S) (obs : Observer S) (xdr_law : XdrLaw x obs) (svc : Svc S W)
    (law : SvcLaw x obs svc) (device : Device S W) where
  -- A request for one of the 14 procedures that have an argument is answered with exactly one reply:
  -- the wire form of what the implementation's function for that procedure answers in the world
  -- behind the decoding of the argument. From a stream `s` that begins with this reply, the routine
  -- of the procedure's result reads that answer back over any old one. The request holds a valid argument in its wire
  -- form, the implementation returns a positive number there with a valid result, there is room for
  -- it, the RPC library keeps to its documentation, the streams keep to the XDR standard, and
  -- neither that call of the implementation nor the freeing of its result sends anything.
  pub device_core_1_answers :
      (p : Procedure) (a : Arg p) (r old : Res p) (w : W) (s : S) (rest more : Bytes)
      → IsArg p a
      → IsRes p r
      → x.x_op (law.request w) ≡ decode
      → obs.pending (law.request w) ≡ 0
      → obs.unread (law.request w) ≡ wire_arg p a ++ rest
      → length (wire_res p r) ≤ obs.room law.blank
      → Implements x obs svc law (local device p) a r (svc.svc_getargs (xdr_arg x p) (zeroed p) w).1
      → ((w' : W)
          → law.replies (device.device_core_1_freeresult (xdr_res x p) r w').1 ≡ law.replies w')
      → x.x_op s ≡ decode
      → obs.pending s ≡ 0
      → obs.unread s ≡ wire_res p r ++ more
      → (law.replies (last (device_core_1 x svc device (number p) w))
          ≡ law.replies w ++ (wire_res p r ∷ []))
        × ((s' : S) × (xdr_res x p old s ≡ some (r, s')))
  device_core_1_answers p a r old w s rest more va vr op pend left room impl frees op1 pend1 left1 =
      let (s', e, _, _, _) =
        ((xdr_res-Codes x obs xdr_law p).reads old r vr).run s more op1 pend1 left1 in
      (
        rw (device_core_1-number x svc device p w) (
            serve_replies x obs svc law (xdr_arg-Codes x obs xdr_law p)
              (xdr_res-Codes x obs xdr_law p) (zeroed p) (local device p)
              device.device_core_1_freeresult a r w rest frees va vr op pend left room impl),
        (s', e),
      )
