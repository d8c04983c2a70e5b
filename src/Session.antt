-- ===== src/Session.antt =====
-- src/lxi.c and src/session.h: the table of sessions behind the public calls. The protocols' own
-- functions come through an interface that the modules Tcp and Vxi11 fill. Messages to stderr are
-- left out. The calls do not overlap here; Session.Threads lets them.
pub mod Table
pub mod Calls
pub mod Invariant
pub mod Handles
pub mod Connect
pub mod Contract
pub mod Reach
pub mod Threads
use liblxi.Backends.{Backend, Library, Module, vxi11_module, tcp_module}
use liblxi.Base.{
  ℕ, zero, suc, ◌+◌, Bool, true, false, Option, none, some, List, [], ◌∷◌, ℤ, pos, negsuc,
  minus_one, is_negative, is_zero, ltb, ◌==◌, if◌then◌else◌, get_elem?, set, replicate, Run, ok,
  fault, bounds, null, dangling, or_fault, ◌>>=◌, Bytes,
}

-- lxi_protocol_t; `unknown` is any other value of the enum's type.
pub data Protocol : Type 0 where
  vxi11 raw hislip unknown : Protocol

abbrev pub sessions_max : ℕ
sessions_max = 1024

abbrev pub lxi_ok : ℤ
lxi_ok = pos 0

abbrev pub lxi_error : ℤ
lxi_error = minus_one

-- struct session_t. `block` is the pointer `data`; the four functions are known by the module that
-- they come from, and `none` is NULL.
pub record Session : Type 0 where
  pub allocated : Bool
  pub connected : Bool
  pub block : Option ℕ
  pub connect : Option Module
  pub disconnect : Option Module
  pub send : Option Module
  pub receive : Option Module

-- The static array, the heap blocks that malloc() has given out, and the rest of the world.
pub record State (D W : Type 0) : Type 0 where
  pub sessions : List Session
  pub heap : ℕ → Option D
  pub next : ℕ
  pub world : W

abbrev pub update {ℓ} : {A : Type ℓ} → (ℕ → Option A) → ℕ → Option A → ℕ → Option A
update f p v q = if p == q then v else f q

abbrev pub empty_session : Session
empty_session = record {
  allocated = false;
  connected = false;
  block = none;
  connect = none;
  disconnect = none;
  send = none;
  receive = none;
}

-- The program's start: the array is zeroed.
unfoldable pub start : {D W : Type 0} → W → State D W
start w = record {
  sessions = replicate sessions_max empty_session;
  heap = λ _. none;
  next = 0;
  world = w;
}

-- The loop of lxi_init over the first `n` entries.
unfoldable pub init_loop : ℕ → List Session → List Session
init_loop zero ss = ss
init_loop (suc n) [] = []
init_loop (suc n) (s ∷ ss) = record s { allocated = false; connected = false } ∷ init_loop n ss

unfoldable pub lxi_init : {D W : Type 0} → State D W → ℤ × State D W
lxi_init st = (lxi_ok, record st { sessions = init_loop sessions_max st.sessions })

-- The search of lxi_connect over `n` entries, the first of which is number `i`.
unfoldable pub find_free : ℕ → List Session → ℕ → Option ℕ
find_free zero ss i = none
find_free (suc n) [] i = none
find_free (suc n) (s ∷ ss) i = if s.allocated then find_free n ss (i + 1) else some i

-- The switch over the protocol.
unfoldable pub backend_of : Protocol → Option Module
backend_of vxi11 = some vxi11_module
backend_of raw = some tcp_module
backend_of hislip = none
backend_of unknown = none

-- `device > SESSIONS_MAX` is the source's test, and the array has SESSIONS_MAX entries.
unfoldable pub is_valid_session : {D W : Type 0} → State D W → ℤ → Run Bool
is_valid_session st (negsuc n) = ok false
is_valid_session st (pos n) =
    if ltb sessions_max n
    then ok false
    else (do s ← or_fault (get_elem? st.sessions n) bounds; ok s.allocated)

-- A call that gets a session's `data` and works on the block behind it.
unfoldable pub with_block :
    {A D W : Type 0} → Option ℕ → State D W → (D → W → Run (A × D × W)) → Run (A × State D W)
with_block none st f = fault null
with_block (some p) st f = do
  d ← or_fault (st.heap p) dangling
  (a, d', w') ← f d st.world
  ok (a, record st { heap = update st.heap p (some d'); world = w' })

-- free(), which accepts NULL.
unfoldable pub free : {D W : Type 0} → Option ℕ → State D W → Run (State D W)
free none st = ok st
free (some p) st = do
  d ← or_fault (st.heap p) dangling
  ok (record st { heap = update st.heap p none })

-- session[device]; a valid handle is not negative.
abbrev pub at_index {ℓ} : {A : Type ℓ} → ℤ → (ℕ → Run A) → Run A
at_index (pos i) f = f i
at_index (negsuc n) f = fault bounds

module _ {D W : Type 0} (lib : Library D W) where
  -- One case of the switch: the four functions, and a block from malloc().
  unfoldable pub set_up : Module → ℕ → State D W → Run (State D W)
  set_up m i st = do
    s ← or_fault (get_elem? st.sessions i) bounds
    let (fresh, w1) = lib.malloc m st.world
    let s' : Session = record s {
      connect = some m;
      disconnect = some m;
      send = some m;
      receive = some m;
    }
    elim fresh [
      | none ↦
          ok (record st { sessions = set st.sessions i (record s' { block = none }); world = w1 })
      | some d ↦ ok (record st {
        sessions = set st.sessions i (record s' { block = some st.next });
        heap = update st.heap st.next (some d);
        next = suc st.next;
        world = w1;
      })
    ]

  -- The call of session[i].connect on session[i].data.
  unfoldable pub call_connect :
      Module → Option ℕ → Bytes → ℤ → Option Bytes → ℤ → State D W → Run (ℤ × State D W)
  call_connect m none address port name timeout st = do
    w1 ← (lib.backend m).connect_null address port name timeout st.world
    ok (minus_one, record st { world = w1 })
  call_connect m (some p) address port name timeout st =
      with_block (some p) st (λ d w. (lib.backend m).connect d address port name timeout w)

  -- From the call of session[i].connect on.
  unfoldable pub connect_session :
      ℕ → Bytes → ℤ → Option Bytes → ℤ → State D W → Run (ℤ × State D W)
  connect_session i address port name timeout st = do
    s ← or_fault (get_elem? st.sessions i) bounds
    m ← or_fault s.connect null
    (status, st1) ← call_connect m s.block address port name timeout st
    if is_zero status
        then ok (
          pos i,
          record st1 {
            sessions = set st1.sessions i (record s { allocated = true; connected = true });
          },
        )
        else (do st2 ← free s.block st1; ok (lxi_error, st2))

  unfoldable pub lxi_connect :
      State D W → Bytes → ℤ → Option Bytes → ℤ → Protocol → Run (ℤ × State D W)
  lxi_connect st address port name timeout protocol = elim (find_free sessions_max st.sessions 0) [
    | none ↦ ok (lxi_error, st)
    | some i ↦ elim (backend_of protocol) [
      | none ↦ ok (lxi_error, st)
      | some m ↦ do st1 ← set_up m i st; connect_session i address port name timeout st1
    ]
  ]

  -- lxi_disconnect behind its test of the handle.
  unfoldable pub disconnect_session : ℕ → State D W → Run (ℤ × State D W)
  disconnect_session i st = do
    s ← or_fault (get_elem? st.sessions i) bounds
    let close = do
      m ← or_fault s.disconnect null
      (status, st1) ← with_block s.block st (λ d w. (lib.backend m).disconnect d w)
      ok st1
    st1 ← if s.connected then close else ok st
    st2 ← free s.block st1
    ok (
      lxi_ok,
      record st2 {
        sessions = set st2.sessions i (record s { allocated = false; connected = false });
      },
    )

  unfoldable pub lxi_disconnect : State D W → ℤ → Run (ℤ × State D W)
  lxi_disconnect st device = do
    valid ← is_valid_session st device
    if valid then at_index device (λ i. disconnect_session i st) else ok (lxi_error, st)

  unfoldable pub send_session : ℕ → Bytes → ℕ → ℤ → State D W → Run (ℤ × State D W)
  send_session i message length timeout st = do
    s ← or_fault (get_elem? st.sessions i) bounds
    m ← or_fault s.send null
    (sent, st1) ← with_block s.block st (λ d w. (lib.backend m).send d message length timeout w)
    if is_negative sent then ok (lxi_error, st1) else ok (sent, st1)

  unfoldable pub lxi_send : State D W → ℤ → Bytes → ℕ → ℤ → Run (ℤ × State D W)
  lxi_send st device message length timeout = do
    valid ← is_valid_session st device
    if valid
        then at_index device (λ i. send_session i message length timeout st)
        else ok (lxi_error, st)

  unfoldable pub receive_session : ℕ → Bytes → ℕ → ℤ → State D W → Run ((ℤ × Bytes) × State D W)
  receive_session i message length timeout st = do
    s ← or_fault (get_elem? st.sessions i) bounds
    m ← or_fault s.receive null
    (reply, st1) ← with_block s.block st (λ d w. do
      (received, message', d', w') ← (lib.backend m).receive d message length timeout w
      ok ((received, message'), d', w'))
    if is_negative reply.0 then ok ((lxi_error, reply.1), st1) else ok (reply, st1)

  -- The buffer behind `message` is returned with the result.
  unfoldable pub lxi_receive : State D W → ℤ → Bytes → ℕ → ℤ → Run ((ℤ × Bytes) × State D W)
  lxi_receive st device message length timeout = do
    valid ← is_valid_session st device
    if valid
        then at_index device (λ i. receive_session i message length timeout st)
        else ok ((lxi_error, message), st)
