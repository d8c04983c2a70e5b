-- ===== src/Session/Threads/Mutex/Parts.antt =====
-- The steps of Session.Threads are what its machine with session_mutex comes to.
use liblxi.Base.{ℕ, ◌≤◌, ◌≡◌, List, [], ◌∷◌, length, ok}
use liblxi.Backends.{Library}
use liblxi.Session.{State}
use liblxi.Session.Threads.{Thread, run}
use liblxi.Session.Threads.Mutex.{Phase, outside, inside, leaving, Machine}

-- The threads without what the mutex has to do with them.
abbrev pub thread_of : Phase → Thread
thread_of (outside t) = t
thread_of (inside t) = t
thread_of (leaving t) = t

abbrev pub threads_of : List Phase → List Thread
threads_of [] = []
threads_of (p ∷ phases) = thread_of p ∷ threads_of phases

module _ {D W : Type 0} (lib : Library D W) where
  -- The threads and the state of a machine.
  abbrev pub shown : Machine D W → List Thread × State D W
  shown mach = (threads_of mach.phases, mach.state)

  -- Parts that lead from one machine to another.
  LeadsTo : (n : ℕ) → Machine D W → Machine D W → Type 0
  LeadsTo n mach mach' =
      (parts : List ℕ) × (length parts ≤ n)
      × (run lib parts (threads_of mach.phases) mach.state ≡ ok (shown mach'))
