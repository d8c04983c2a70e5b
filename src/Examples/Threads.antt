-- ===== src/Examples/Threads.antt =====
-- The theorems on several threads in src/lxi.c, with the protocol of the examples on sessions.
use liblxi.Base.{ℕ, suc, ◌≡◌, refl, none, some, [], ◌∷◌, List, pos, fault, dangling}
use liblxi.Session.{raw}
use liblxi.Session.Threads.{
  Thread, using, connecting, disconnecting, sending, behind_check, before, run,
}
use liblxi.Session.Threads.Races.{overlapping_use}
use liblxi.Session.Threads.Mutex.{outside, leaving, Machine}
use liblxi.Examples.Sessions.{
  library, one_session, one_session-Inv, first_session, first_there, first_used, first-IsOpen,
}

overlapping_use_example :
    run library
      (0 ∷ 1 ∷ 0 ∷ 1 ∷ [])
      (before (using (pos 0) disconnecting)
        ∷ before (using (pos 0) (sending (1 ∷ []) 1 (pos 1000)))
        ∷ [])
      one_session
    ≡ fault dangling
overlapping_use_example =
    overlapping_use library one_session one_session-Inv 0 first_session first_there first_used
      first-IsOpen (pos 0) (suc first-IsOpen.contents) (suc one_session.world) refl
      (sending (1 ∷ []) 1 (pos 1000))

-- One thread closes the open session, while another one opens a session.
abbrev closing : Thread
closing = before (using (pos 0) disconnecting)

abbrev opening : Thread
opening = before (connecting [] (pos 5025) none (pos 1000) raw)

abbrev two_threads : List Thread
two_threads = closing ∷ opening ∷ []

-- The first thread has tested its handle and still holds the mutex.
abbrev tested : Machine ℕ ℕ
tested = record {
  phases = leaving (behind_check disconnecting 0) ∷ outside opening ∷ [];
  owner = some 0;
  state = one_session;
}
