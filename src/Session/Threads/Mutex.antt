-- ===== src/Session/Threads/Mutex.antt =====
-- session_mutex of src/lxi.c: where the threads of Session.Threads take it and give it up. It is a
-- default mutex, so a thread that takes it twice waits for itself.
pub mod Holding
pub mod Grant
pub mod Parts
use liblxi.Base.{
  ℕ, Bool, true, false, Option, none, some, List, [], ◌∷◌, ℤ, pos, negsuc, ltb, if◌then◌else◌,
  get_elem?, set, Run, ok, ◌>>=◌,
}
use liblxi.Backends.{Library}
use liblxi.Session.{State, sessions_max}
use liblxi.Session.Threads.{
  Use, disconnecting, sending, receiving, connecting, using, Thread, before, behind_check, returned,
  step,
}

-- A thread between two parts, in a part that it runs with the mutex, and behind that part with the
-- mutex still held.
pub data Phase : Type 0 where
  outside inside leaving : Thread → Phase

-- is_valid_session takes the mutex for the handles that pass its first two tests.
unfoldable pub reads_table : ℤ → Bool
reads_table (negsuc n) = false
reads_table (pos n) = if ltb sessions_max n then false else true

-- Whether the part that a thread has before it begins with pthread_mutex_lock().
unfoldable pub locks : Thread → Bool
locks (before (connecting address port name timeout protocol)) = true
locks (before (using device what)) = reads_table device
locks (behind_check disconnecting i) = true
locks (behind_check (sending message length timeout) i) = false
locks (behind_check (receiving message length timeout) i) = false
locks (returned z) = false

-- The threads, the number of the one that holds the mutex, and the state that they share.
pub record Machine (D W : Type 0) : Type 0 where
  pub phases : List Phase
  pub owner : Option ℕ
  pub state : State D W

-- pthread_mutex_lock(), by the mutex's holder: it waits while there is one.
abbrev pub lock : {D W : Type 0} → Option ℕ → ℕ → Thread → Machine D W → Machine D W
lock none k t mach = record mach { phases = set mach.phases k (inside t); owner = some k }
lock (some j) k t mach = mach

module _ {D W : Type 0} (lib : Library D W) where
  -- A part of a thread, which it is then behind in a phase that `next` gives.
  unfoldable pub part : (Thread → Phase) → ℕ → Thread → Machine D W → Run (Machine D W)
  part next k t mach = do
    (t1, st1) ← step lib t mach.state
    ok (record mach { phases = set mach.phases k (next t1); state = st1 })

  -- What thread `k` does next: it locks, runs a part, or unlocks.
  unfoldable pub move : ℕ → Phase → Machine D W → Run (Machine D W)
  move k (outside t) mach = if locks t then ok (lock mach.owner k t mach) else part outside k t mach
  move k (inside t) mach = part leaving k t mach
  move k (leaving t) mach =
      ok (record mach { phases = set mach.phases k (outside t); owner = none })

  unfoldable pub tick : ℕ → Machine D W → Run (Machine D W)
  tick k mach = elim (get_elem? mach.phases k) [ none ↦ ok mach | some phase ↦ move k phase mach ]

  unfoldable pub run_machine : List ℕ → Machine D W → Run (Machine D W)
  run_machine [] mach = ok mach
  run_machine (k ∷ schedule) mach = do mach1 ← tick k mach; run_machine schedule mach1

-- The threads before their calls, and nobody holds the mutex.
unfoldable pub all_outside : List Thread → List Phase
all_outside [] = []
all_outside (t ∷ threads) = outside t ∷ all_outside threads

unfoldable pub starting : {D W : Type 0} → List Thread → State D W → Machine D W
starting threads st = record { phases = all_outside threads; owner = none; state = st }
