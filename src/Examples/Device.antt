-- ===== src/Examples/Device.antt =====
-- An RPC library with one device behind it, on streams of numbers. The device has some bytes to be
-- read and sends as many of them as it is asked for.
use liblxi.Base.{
  ℕ, ◌<◌, ◌≡◌, refl, sym, ap, ◌∙◌, Option, none, some, List, [], ◌∷◌, ◌++◌, ℤ, length, take, drop,
  length-take, leb, ◌==◌, if◌then◌else◌, Bytes, arith,
}
use liblxi.Xdr.{Xdr, Op, encode, decode, free, Kind, M, ◌>>=◌, done, by_op, if_inline}
use liblxi.Core.{DeviceReadResp}
use liblxi.Core.Routines.{xdr_device_link, xdr_device_flags, xdr_device_error_code}
use liblxi.Core.Routines.Read.{
  xdr_device_read_parms, xdr_device_read_resp, device_read_parms_first, device_read_parms_slow,
  device_read_parms_rest,
}
use liblxi.Rpc.{Rpc, ClientLaw}
use liblxi.Client.{device_read_1}
use liblxi.Vxi11.{Vxi11Data}
use liblxi.Vxi11.Receive.{ask, DeviceLaw}
use liblxi.Vxi11.Send.{AcceptLaw}
use liblxi.Client.{device_write_1}
use liblxi.Core.{DeviceWriteParms, DeviceWriteResp}
use liblxi.Core.Routines.{xdr_device_write_parms, xdr_device_write_resp}
use liblxi.Base.{length-drop}

pub record Numbers : Type 0 where
  pub direction : Op
  pub numbers : List ℕ
  pub bytes : Bytes

abbrev popped : ℕ → List ℕ → Numbers → Option (ℕ × Numbers)
popped v [] s = none
popped v (n ∷ ns) s = some (n, record s { numbers = ns })

abbrev number_by : Op → Kind → ℕ → Numbers → Option (ℕ × Numbers)
number_by encode k v s = some (v, record s { numbers = s.numbers ++ (v ∷ []) })
number_by decode k v s = popped v s.numbers s
number_by free k v s = some (v, s)

abbrev bytes_by : Op → Bytes → Numbers → Option (Bytes × Numbers)
bytes_by encode b s = some (b, record s { bytes = b })
bytes_by decode b s = some (s.bytes, s)
bytes_by free b s = some ([], s)

abbrev pub numbers_xdr : Xdr Numbers
numbers_xdr = record {
  x_op = λ s. s.direction;
  number = λ k v s. number_by s.direction k v s;
  string = λ b max s. bytes_by s.direction b s;
  bytes = λ b max s. bytes_by s.direction b s;
  inline = λ n s. none;
  put = λ v s. s;
  get = λ s. (0, s);
}

pub record Bench : Type 0 where
  pub pending : Bytes
  pub held : List ℕ
  pub heard : List (Bytes × Bytes)

abbrev second_of : List ℕ → ℕ
second_of [] = 0
second_of (a ∷ []) = 0
second_of (a ∷ b ∷ l) = b

abbrev encoded : {A : Type 0} → Option (A × Numbers) → List ℕ
encoded none = []
encoded (some (a, s)) = s.numbers

-- The reason is the end of the data, or that no byte was asked for, or none.
abbrev reason_for : ℕ → Bytes → ℕ
reason_for room b = if leb (length b) room then 4 else (if room == 0 then 1 else 0)

abbrev pub returned : {B : Type 0} → B → Option (B × Numbers) → Bench → Bench → ℕ × B × Bench
returned b none w w' = (1, b, w)
returned b (some (r, s)) w w' = (0, r, w')

abbrev room_asked : {A : Type 0} → (A → M Numbers A) → A → ℕ
room_asked f a = second_of (encoded (f a (record { direction = encode; numbers = []; bytes = [] })))

-- Every call is answered as a read is.
abbrev pub bench_rpc : Rpc Numbers Bench
bench_rpc = record {
  xdr_void = λ u s. some (u, s);
  clnt_create = λ address program version w. (some 5, record w { held = 5 ∷ w.held });
  clnt_destroy = λ c w. record w { held = drop 1 w.held };
  clnt_call = λ c procedure f a g b seconds w.
      let room = room_asked f a in
      returned b
        (g b (record {
          direction = decode;
          numbers = 0 ∷ reason_for room w.pending ∷ 0 ∷ 0 ∷ [];
          bytes = take room w.pending;
        }))
        w (record w { pending = drop room w.pending });
}

abbrev answer : ℕ → Bench → DeviceReadResp
answer room w = record {
  error = 0;
  reason = reason_for room w.pending;
  payload = take room w.pending;
}

pub bench_answers :
    (d : Vxi11Data) (c : ℕ) (timeout : ℤ) (room : ℕ) (w : Bench)
    → ask numbers_xdr bench_rpc d c timeout room w
      ≡ (0, answer room w, record w { pending = drop room w.pending })
unfolding ◌>>=◌ done by_op if_inline device_read_1 xdr_device_read_parms xdr_device_read_resp
    device_read_parms_first device_read_parms_slow device_read_parms_rest xdr_device_link
    xdr_device_flags xdr_device_error_code
bench_answers d c timeout room w = refl

bench_moves : (room : ℕ) (b : Bytes) → reason_for room b ≡ 0 → 0 < length (take room b)
bench_moves room b e = let size = length-take room b in ground (arith, size)

pub bench-DeviceLaw : DeviceLaw numbers_xdr bench_rpc
bench-DeviceLaw = record {
  reply_fits = λ d c timeout room w w' status r e.
      let same : answer room w ≡ r =
        ap (λ (p : ℕ × DeviceReadResp × Bench). p.1) (sym (bench_answers d c timeout room w) ∙ e) in
      let size = length-take room w.pending in rw (← same) (omega arith);
  reply_moves = λ d c timeout room w w' r e good more.
      let same : answer room w ≡ r =
        ap (λ (p : ℕ × DeviceReadResp × Bench). p.1) (sym (bench_answers d c timeout room w) ∙ e) in
      rw (← same) (bench_moves room w.pending (rw (← same) at more));
}

returned-held :
    {B : Type 0} (b : B) (o : Option (B × Numbers)) (w w' : Bench)
    → w'.held ≡ w.held
    → (returned b o w w').2.held ≡ w.held
returned-held b none w w' h = refl
returned-held b (some (r, s)) w w' h = h

pub bench-ClientLaw : ClientLaw bench_rpc
bench-ClientLaw = record {
  clients = λ w. w.held;
  create_adds = λ address program version w w' client e.
      ap (λ (p : Option ℕ × Bench). p.1.held) (sym e)
      ∙ (let head : some 5 ≡ some client = ap (λ (p : Option ℕ × Bench). p.0) e in
          let same : 5 ≡ client = cc in ap (λ (n : ℕ). n ∷ w.held) same);
  create_fails = λ address program version w w' e.
      let clash : some 5 ≡ none = ap (λ (p : Option ℕ × Bench). p.0) e in absurd (cc);
  destroy_removes = λ client w l e. ap (drop 1) e;
  call_keeps = λ client procedure f a g b seconds w. returned-held b _ w _ refl;
}

-- A device that sends its four bytes whatever it is asked for.
abbrev pub rude_rpc : Rpc Numbers Bench
rude_rpc = record bench_rpc {
  clnt_call = λ c procedure f a g b seconds w.
      returned b
        (g b (record { direction = decode; numbers = 0 ∷ 4 ∷ []; bytes = 1 ∷ 2 ∷ 3 ∷ 4 ∷ [] })) w w;
}

abbrev bytes_given : {A : Type 0} → Option (A × Numbers) → Bytes
bytes_given none = []
bytes_given (some (a, s)) = s.bytes

-- A device that accepts all bytes but the last, and keeps them.
abbrev pub eager_rpc : Rpc Numbers Bench
eager_rpc = record bench_rpc {
  clnt_call = λ c procedure f a g b seconds w.
      let given = bytes_given (f a (record { direction = encode; numbers = []; bytes = [] })) in
      returned b
        (g b (record { direction = decode; numbers = 0 ∷ length (drop 1 given) ∷ []; bytes = [] }))
        w (record w { pending = w.pending ++ take (length (drop 1 given)) given });
}

eager_answers :
    (parms : DeviceWriteParms) (old : DeviceWriteResp) (c : ℕ) (w : Bench)
    → device_write_1 numbers_xdr eager_rpc parms old c w ≡ (
      0,
      record { error = 0; size = length (drop 1 parms.payload) },
      record w { pending = w.pending ++ take (length (drop 1 parms.payload)) parms.payload },
    )
unfolding ◌>>=◌ done device_write_1 xdr_device_write_parms xdr_device_write_resp xdr_device_link
    xdr_device_flags xdr_device_error_code
eager_answers parms old c w = refl

pub eager-AcceptLaw : AcceptLaw numbers_xdr eager_rpc
eager-AcceptLaw = record {
  accepted = λ lid w. w.pending;
  accepts = λ parms old r c w w' e.
      let same : length (drop 1 parms.payload) ≡ r.size =
        ap (λ (p : ℕ × DeviceWriteResp × Bench). p.1.size)
          (sym (eager_answers parms old c w) ∙ e) in
      let moved : w.pending ++ take (length (drop 1 parms.payload)) parms.payload ≡ w'.pending =
        ap (λ (p : ℕ × DeviceWriteResp × Bench). p.2.pending)
          (sym (eager_answers parms old c w) ∙ e) in
      let size = length-drop 1 parms.payload in (omega arith, sym moved ∙ rw same refl);
}

-- The clients of the bench are those that it holds.
pub bench-held : (w : Bench) → bench-ClientLaw.clients w ≡ w.held
unfolding bench-ClientLaw
bench-held w = refl
