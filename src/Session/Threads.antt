-- ===== src/Session/Threads.antt =====
-- Calls of src/lxi.c from several threads. Each holds session_mutex in is_valid_session and gives
-- it up before it goes on: lxi_disconnect takes it again, lxi_send and lxi_receive do not. A step is
-- what a thread does up to the point where another one may come in; Mutex has the locking and the
-- unlocking around it as steps of their own. A transfer is one step, though other threads can come in
-- while its protocol's function runs.
pub mod Races
pub mod Effects
pub mod Exclusive
pub mod Schedules
pub mod Mutex
use liblxi.Base.{
  ℕ, zero, suc, Bool, true, false, Option, none, some, List, [], ◌∷◌, ℤ, get_elem?, set,
  if◌then◌else◌, Run, ok, fault, ◌>>=◌, Bytes,
}
use liblxi.Backends.{Library}
use liblxi.Session.{
  State, Protocol, lxi_error, at_index, is_valid_session, lxi_connect, disconnect_session,
  send_session, receive_session,
}

-- What a public call does with a session.
pub data Use : Type 0 where
  disconnecting : Use
  sending receiving : Bytes → ℕ → ℤ → Use

-- A public call with its arguments.
pub data Call : Type 0 where
  connecting : Bytes → ℤ → Option Bytes → ℤ → Protocol → Call
  using : ℤ → Use → Call

-- A thread before its call, behind is_valid_session with the entry's index, or with its result.
pub data Thread : Type 0 where
  before : Call → Thread
  behind_check : Use → ℕ → Thread
  returned : ℤ → Thread

module _ {D W : Type 0} (lib : Library D W) where
  -- The test of the handle that the calls on a session start with.
  unfoldable pub check : Use → ℤ → State D W → Run (Thread × State D W)
  check what device st = do
    valid ← is_valid_session st device
    if valid
        then at_index device (λ i. ok (behind_check what i, st))
        else ok (returned lxi_error, st)

  -- The part behind the test.
  unfoldable pub act : Use → ℕ → State D W → Run (Thread × State D W)
  act disconnecting i st = do (z, st1) ← disconnect_session lib i st; ok (returned z, st1)
  act (sending message len timeout) i st = do
    (z, st1) ← send_session lib i message len timeout st
    ok (returned z, st1)
  act (receiving message len timeout) i st = do
    (reply, st1) ← receive_session lib i message len timeout st
    ok (returned reply.0, st1)

  -- One step of a thread. lxi_connect is one, since it holds the mutex from its start to its end.
  unfoldable pub step : Thread → State D W → Run (Thread × State D W)
  step (before (connecting address port name timeout protocol)) st = do
    (z, st1) ← lxi_connect lib st address port name timeout protocol
    ok (returned z, st1)
  step (before (using device what)) st = check what device st
  step (behind_check what i) st = act what i st
  step (returned z) st = ok (returned z, st)

  -- The steps of the threads with the given numbers, one after the other. A number without a thread
  -- does nothing.
  unfoldable pub run : List ℕ → List Thread → State D W → Run (List Thread × State D W)
  run [] threads st = ok (threads, st)
  run (k ∷ schedule) threads st = elim (get_elem? threads k) [
    | none ↦ run schedule threads st
    | some thread ↦ do (thread1, st1) ← step thread st; run schedule (set threads k thread1) st1
  ]
