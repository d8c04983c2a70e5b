-- ===== src/Session/Threads/Mutex/Grant.antt =====
-- A thread of src/lxi.c that waits for session_mutex gets it.
use liblxi.Base.{ℕ, ◌≤◌, ◌≡◌, some, List, length, get_elem?, Fault, ok, fault}
use liblxi.Backends.{Library}
use liblxi.Session.Threads.{Thread, step}
use liblxi.Session.Threads.Mutex.{inside, Machine, run_machine}

module _ {D W : Type 0} (lib : Library D W) (k : ℕ) (t : Thread) where
  -- Steps that end with thread `k` in its part.
  pub LetIn : Machine D W → ℕ → Type 0
  LetIn mach n =
      (rest : List ℕ) × (mach' : Machine D W) × (length rest ≤ n)
      × (run_machine lib rest mach ≡ ok mach')
      × (get_elem? mach'.phases k ≡ some (inside t))

module _ {D W : Type 0} (lib : Library D W) where
  -- The part that the mutex's holder has before it meets a fault.
  pub HolderFaults : Machine D W → Type 0
  HolderFaults mach =
      (j : ℕ) × (u : Thread) × (why : Fault) × (mach.owner ≡ some j)
      × (get_elem? mach.phases j ≡ some (inside u))
      × (step lib u mach.state ≡ fault why)
