-- ===== src/Session/Invariant.antt =====
-- When the table of sessions, the heap and the handles agree, and which changes keep that.
pub mod Changes
use mathlib.Core.Path.{subst}
use liblxi.Base.{
  ℕ, suc, ◌≤◌, ◌<◌, ◌≡◌, refl, sym, ap, ◌∙◌, ◌≢◌, ◌⊎◌, inl, inr, Bool, true, false, Option, none,
  some, List, length, get_elem?, set, length-set, get_elem?-set, get_elem?-lt, get_elem?-set_self,
  ◌==◌, if◌then◌else◌, arith, Bool-cases, Option-cases, set-cases,
}
use liblxi.Backends.{Module}
use liblxi.Session.{Session, State, sessions_max, update}

-- An entry that a handle may be used with: connected, all four functions from one protocol, and a
-- live block of its own.
pub record IsOpen {D : Type 0} (heap : ℕ → Option D) (s : Session) : Type 0 where
  pub protocol : Module
  pub pointer : ℕ
  pub contents : D
  pub is_connected : s.connected ≡ true
  pub has_connect : s.connect ≡ some protocol
  pub has_disconnect : s.disconnect ≡ some protocol
  pub has_send : s.send ≡ some protocol
  pub has_receive : s.receive ≡ some protocol
  pub has_block : s.block ≡ some pointer
  pub is_live : heap pointer ≡ some contents

-- The session in use that owns a block.
pub record Owner (ss : List Session) (p : ℕ) : Type 0 where
  pub index : ℕ
  pub entry : Session
  pub is_there : get_elem? ss index ≡ some entry
  pub in_use : entry.allocated ≡ true
  pub owns : entry.block ≡ some p

-- Sessions in use are open, no two share a block, no block is leaked, and new blocks are fresh.
pub record Inv {D W : Type 0} (st : State D W) : Type 0 where
  pub size : length st.sessions ≡ sessions_max
  pub active :
      (i : ℕ) (s : Session)
      → get_elem? st.sessions i ≡ some s
      → s.allocated ≡ true
      → IsOpen st.heap s
  pub distinct :
      (i j p : ℕ) (s t : Session)
      → get_elem? st.sessions i ≡ some s
      → get_elem? st.sessions j ≡ some t
      → s.allocated ≡ true
      → t.allocated ≡ true
      → s.block ≡ some p
      → t.block ≡ some p
      → i ≡ j
  pub owned : (p : ℕ) (d : D) → st.heap p ≡ some d → Owner st.sessions p
  pub fresh : (p : ℕ) (d : D) → st.heap p ≡ some d → p < st.next
