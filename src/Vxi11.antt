-- ===== src/Vxi11.antt =====
-- src/vxi11.c: the VXI-11 protocol over the RPC client. Numbers that C holds as `int` or `long` in
-- a message are their bit patterns. Messages to stderr are left out. Lengths are numbers: the `int
-- length` of a caller is the size of its buffer, so it is not negative.
pub mod Receive
pub mod Send
pub mod Connect
use liblxi.Base.{
  ℕ, zero, suc, ◌+◌, ◌-◌, ◌*◌, ◌/◌, ◌%◌, ◌^◌, Bool, true, false, Option, none, some, List, [], ◌∷◌,
  ℤ, pos, negsuc, minus_one, quot, rem, scale, ◌+ℤ◌, ltb_ℤ, ltb, leb, ◌==◌, if◌then◌else◌, length,
  Run, ok, fault, fuel, null, dangling, ◌>>=◌, Bytes, read_at, write_at, or_fault,
}
use liblxi.Xdr.{Xdr}
use liblxi.Core.{
  CreateLinkParms, CreateLinkResp, DeviceWriteParms, DeviceWriteResp, DeviceReadParms,
  DeviceReadResp, DeviceError,
}
use liblxi.Rpc.{Rpc, Threads, Timespec, Waited, woken, timed_out}
use liblxi.Client.{create_link_1, destroy_link_1, device_write_1, device_read_1}

-- vxi11_data_t. `rpc_client` is `none` for NULL.
pub record Vxi11Data : Type 0 where
  pub rpc_client : Option ℕ
  pub link_resp : CreateLinkResp

abbrev pub device_core : ℕ
device_core = 0x06_07af

abbrev pub device_core_version : ℕ
device_core_version = 1

-- "inst0"
abbrev pub default_device : Bytes
default_device = 0x69 ∷ 0x6e ∷ 0x73 ∷ 0x74 ∷ 0x30 ∷ []

-- RECEIVE_END_BIT and RECEIVE_TERM_CHAR_BIT: bits 2 and 1 of the reason.
unfoldable pub has_end_bit : ℕ → Bool
has_end_bit reason = reason / 4 % 2 == 1

unfoldable pub has_term_char_bit : ℕ → Bool
has_term_char_bit reason = reason / 2 % 2 == 1

-- The conversions between `int` and 32 unsigned bits.
abbrev pub to_u32 : ℤ → ℕ
to_u32 (pos n) = n % 2 ^ 32
to_u32 (negsuc n) = 2 ^ 32 - 1 - n % 2 ^ 32

abbrev pub to_int : ℕ → ℤ
to_int v = if ltb v (2 ^ 31) then pos v else negsuc (2 ^ 32 - 1 - v)

-- The sum of the clock and a timeout in milliseconds, as vxi11_connect computes it.
unfoldable pub deadline : Timespec → ℤ → Timespec
deadline now timeout =
    let sec = now.tv_sec +ℤ quot timeout 1000 in
    let nsec = now.tv_nsec +ℤ scale (rem timeout 1000) 1_000_000 in
    if ltb_ℤ nsec (pos 1_000_000_000)
    then record { tv_sec = sec; tv_nsec = nsec }
    else record { tv_sec = sec +ℤ pos 1; tv_nsec = rem nsec 1_000_000_000 }

-- What the body of the loop of vxi11_receive does after a call: return -1, leave the loop, or go on.
pub data Verdict : Type 0 where
  give_up finished again : Verdict

-- Its tests from the status of the call on, with the length of all data so far.
unfoldable pub verdict : (length response_length status : ℕ) → DeviceReadResp → Verdict
verdict len response_length status resp =
    let stop = if has_end_bit resp.reason then true else has_term_char_bit resp.reason in
    if status == 0
    then (if resp.error == 0
        then (if ltb len response_length
            then give_up
            else (if stop then finished else (if resp.reason == 0 then again else finished)))
        else give_up)
    else give_up

module _ {S W : Type 0} (x : Xdr S) (rpc : Rpc S W) where
  -- _vxi11_connect from the set-up of the link on. The client id is the client's address, as a
  -- pattern of 32 bits.
  unfoldable pub request_link : Vxi11Data → ℕ → Option Bytes → W → ℤ × Vxi11Data × W
  request_link d c name w =
      let link_params : CreateLinkParms = record {
        client_id = c % 2 ^ 32;
        lock_device = 0;
        lock_timeout = 0;
        device = elim name [ none ↦ default_device | some given ↦ given ];
      } in
      let (status, resp, w1) = create_link_1 x rpc link_params d.link_resp c w in
      let d1 : Vxi11Data = record { rpc_client = some c; link_resp = resp } in
      if status == 0 then (pos 0, d1, w1) else (minus_one, d1, rpc.clnt_destroy c w1)

  -- _vxi11_connect
  unfoldable pub create_link : Vxi11Data → Bytes → Option Bytes → W → ℤ × Vxi11Data × W
  create_link d address name w =
      let (client, w1) = rpc.clnt_create address device_core device_core_version w in
      elim client [
        | none ↦ (minus_one, record d { rpc_client = none }, w1)
        | some c ↦ request_link d c name w1
      ]

  -- The wait of _pthread_timedjoin: whether the thread has been joined.
  unfoldable pub join_loop : Threads Vxi11Data W → ℕ → Timespec → W → Run (Bool × W)
  join_loop threads zero until w = fault fuel
  join_loop threads (suc f) until w =
      let (waited, joined, w1) = threads.cond_timedwait until w in
      let rest = join_loop threads f until w1 in
      if joined then ok (true, w1) else elim waited [ woken ↦ rest | timed_out ↦ ok (false, w1) ]

  -- _pthread_timedjoin. When its helper thread cannot be created, it goes on to cancel a thread id
  -- that was never set.
  unfoldable pub timed_join : Threads Vxi11Data W → ℕ → Timespec → W → Run (Bool × W)
  timed_join threads rounds until w =
      let (created, w1) = threads.pthread_create w in
      if created then join_loop threads rounds until w1 else fault dangling

  -- vxi11_connect behind the creation of its thread. The thread's own work is done when it is joined;
  -- a thread that is cancelled has done what `threads.cancelled` says.
  unfoldable pub await_link :
      Threads Vxi11Data W
      → ℕ
      → Timespec
      → Vxi11Data
      → Bytes
      → Option Bytes
      → W
      → Run (ℤ × Vxi11Data × W)
  await_link threads rounds until d address name w = do
    (joined, w1) ← timed_join threads rounds until w
    let cancelled = let (d', w2) = threads.cancelled d w1 in ok (minus_one, d', w2)
    if joined then ok (create_link d address name w1) else cancelled

  -- `rounds` bounds the wake-ups of the wait.
  unfoldable pub vxi11_connect :
      Threads Vxi11Data W
      → ℕ
      → Vxi11Data
      → Bytes
      → ℤ
      → Option Bytes
      → ℤ
      → W
      → Run (ℤ × Vxi11Data × W)
  vxi11_connect threads rounds d address port name timeout w =
      let (clock, w1) = threads.clock_gettime w in
      let (created, w2) = threads.pthread_create w1 in
      elim clock [
        | none ↦ ok (minus_one, d, w1)
        | some now ↦
            if created
            then await_link threads rounds (deadline now timeout) d address name w2
            else ok (minus_one, d, w2)
      ]

  -- vxi11_connect with NULL for its data: -1 without a look at it when the clock, the thread or the
  -- wait fails, and otherwise the thread has written through it.
  unfoldable pub vxi11_connect_null :
      Threads Vxi11Data W → ℕ → Bytes → ℤ → Option Bytes → ℤ → W → Run W
  vxi11_connect_null threads rounds address port name timeout w =
      let (clock, w1) = threads.clock_gettime w in
      let (created, w2) = threads.pthread_create w1 in
      let wait = λ (now : Timespec). (do
        (joined, w3) ← timed_join threads rounds (deadline now timeout) w2
        if joined then fault null else threads.cancelled_null w3) in
      elim clock [ none ↦ ok w1 | some now ↦ if created then wait now else ok w2 ]

  -- A disconnect without a client hands NULL to the RPC library.
  unfoldable pub vxi11_disconnect : Vxi11Data → DeviceError → W → Run (ℤ × Vxi11Data × W)
  vxi11_disconnect d device_error w = elim d.rpc_client [
    | none ↦ fault null
    | some c ↦
        let (status, result, w1) = destroy_link_1 x rpc d.link_resp.lid device_error c w in
        ok (pos 0, d, rpc.clnt_destroy c w1)
  ]

  unfoldable pub vxi11_send :
      Vxi11Data → DeviceWriteResp → Bytes → ℕ → ℤ → W → Run (ℤ × Vxi11Data × W)
  vxi11_send d write_resp message len timeout w = do
    payload ← read_at message 0 len
    c ← or_fault d.rpc_client null
    let write_params : DeviceWriteParms = record {
      lid = d.link_resp.lid;
      io_timeout = to_u32 timeout;
      lock_timeout = 0;
      flags = 9;
      payload = payload;
    }
    let (status, resp, w1) = device_write_1 x rpc write_params write_resp c w
    if status == 0 then ok (to_int resp.size, d, w1) else ok (minus_one, d, w1)

  -- The results that the loop of vxi11_receive prepares: all zero, with data that goes into the
  -- message buffer.
  abbrev pub empty_read_resp : DeviceReadResp
  empty_read_resp = record { error = 0; reason = 0; payload = [] }

  abbrev pub read_params : Vxi11Data → ℤ → ℕ → DeviceReadParms
  read_params d timeout request_size = record {
    lid = d.link_resp.lid;
    request_size = request_size;
    io_timeout = to_u32 timeout;
    lock_timeout = 0;
    flags = 0;
    term_char = 0;
  }

  -- The loop of vxi11_receive: `offset` is also response_length, since both grow by the same. The
  -- decoder stores the data into the message before the status or the length is looked at.
  unfoldable pub read_loop :
      ℕ → Vxi11Data → ℕ → ℤ → (length offset : ℕ) → Bytes → W → Run (ℤ × Bytes × W)
  read_loop zero d c timeout len offset message w = fault fuel
  read_loop (suc f) d c timeout len offset message w = do
    let (status, resp, w1) =
        device_read_1 x rpc (read_params d timeout (len - offset)) empty_read_resp c w
    message1 ← write_at message offset resp.payload
    let offset1 = offset + length resp.payload
    let rest = read_loop f d c timeout len offset1 message1 w1
    elim (verdict len offset1 status resp) [
      | give_up ↦ ok (minus_one, message1, w1)
      | finished ↦ ok (pos offset1, message1, w1)
      | again ↦ rest
    ]

  -- A device that sends a byte at least in every reply but the last needs `length + 1` rounds.
  unfoldable pub vxi11_receive : Vxi11Data → Bytes → ℕ → ℤ → W → Run (ℤ × Bytes × Vxi11Data × W)
  vxi11_receive d message len timeout w = do
    c ← or_fault d.rpc_client null
    (count, message', w') ← read_loop (suc len) d c timeout len 0 message w
    ok (count, message', d, w')
