-- ===== src/Examples/Sessions.antt =====
-- The theorems on src/lxi.c, with a protocol that accepts connections to ports that are not negative.
use liblxi.Base.{
  ℕ, suc, ◌≡◌, refl, true, none, some, [], ◌∷◌, ℤ, pos, negsuc, minus_one, set, get_elem?, Run, ok,
  fault, bounds, null,
}
use liblxi.Backends.{Backend, Library, tcp_module}
use liblxi.Session.{
  Session, State, raw, sessions_max, lxi_ok, lxi_error, update, start, lxi_init, lxi_connect,
  lxi_disconnect, lxi_send, lxi_receive, find_free, is_valid_session, disconnect_session, set_up,
  call_connect, connect_session, with_block, free, init_loop, backend_of,
}
use liblxi.Session.Invariant.{Inv, IsOpen}
use liblxi.Session.Handles.{negative, NotOpen-is_rejected, handle_behind_table, transfers-open}
use liblxi.Session.Contract.{view, ConnectSpec, lxi_connect-ConnectSpec}
use liblxi.Session.Connect.Returns.{lxi_connect_returns}
use liblxi.Session.Reach.{Reach, here, next, connecting, Closed, Reach-Inv, lxi_disconnect-Closed}

abbrev connect_status : ℤ → ℤ
connect_status (pos n) = pos 0
connect_status (negsuc n) = minus_one

-- A block is a count of calls, and so is the world.
abbrev counting : Backend ℕ ℕ
counting = record {
  connect = λ d address port name timeout w. ok (connect_status port, suc d, suc w);
  connect_null = λ address port name timeout w. fault null;
  disconnect = λ d w. ok (pos 0, suc d, suc w);
  send = λ d message len timeout w. ok (pos len, suc d, suc w);
  receive = λ d message len timeout w. ok (pos 2, 7 ∷ 8 ∷ [], suc d, suc w);
}

abbrev pub library : Library ℕ ℕ
library = record { backend = λ m. counting; malloc = λ m w. (some 0, suc w) }

abbrev pub Table : Type 0
Table = State ℕ ℕ

abbrev table_or : Table → Run (ℤ × Table) → Table
table_or st (ok r) = r.1
table_or st (fault e) = st

unfoldable pub initial : Table
initial = (lxi_init {D = ℕ} (start 0)).1

initial-Inv : Inv initial
unfolding initial
initial-Inv = Reach-Inv library 0 (lxi_init {D = ℕ} (start 0)).1 here

unfoldable pub one_session : Table
one_session = record {
  sessions = set initial.sessions 0 (record {
    allocated = true;
    connected = true;
    block = some 0;
    connect = some tcp_module;
    disconnect = some tcp_module;
    send = some tcp_module;
    receive = some tcp_module;
  });
  heap = update (update initial.heap 0 (some 0)) 0 (some 1);
  next = 1;
  world = 2;
}

connected_one :
    lxi_connect library initial [] (pos 5025) none (pos 1000) raw ≡ ok (pos 0, one_session)
unfolding lxi_connect set_up connect_session call_connect with_block find_free backend_of initial
    one_session lxi_init start init_loop
connected_one = refl

one_session-Reach : Reach library (lxi_init {D = ℕ} (start 0)).1 one_session
unfolding initial
one_session-Reach = next here (connecting [] (pos 5025) none (pos 1000) raw (pos 0) connected_one)

pub one_session-Inv : Inv one_session
one_session-Inv = Reach-Inv library 0 one_session one_session-Reach

Reach-Inv_example : Inv one_session
Reach-Inv_example = Reach-Inv library 0 one_session one_session-Reach

lxi_connect-ConnectSpec_example : ConnectSpec (view initial) (view one_session) raw (pos 0)
lxi_connect-ConnectSpec_example =
    lxi_connect-ConnectSpec library initial [] (pos 5025) none (pos 1000) raw initial-Inv (pos 0)
      one_session connected_one

pub first_session : Session
first_session = record {
  allocated = true;
  connected = true;
  block = some 0;
  connect = some tcp_module;
  disconnect = some tcp_module;
  send = some tcp_module;
  receive = some tcp_module;
}

pub first_there : get_elem? one_session.sessions 0 ≡ some first_session
unfolding first_session one_session initial lxi_init start init_loop
first_there = refl

pub first_used : first_session.allocated ≡ true
unfolding first_session
first_used = refl

pub first-IsOpen : IsOpen one_session.heap first_session
unfolding first_session one_session
first-IsOpen = record {
  protocol = tcp_module;
  pointer = 0;
  contents = 1;
  is_connected = refl;
  has_connect = refl;
  has_disconnect = refl;
  has_send = refl;
  has_receive = refl;
  has_block = refl;
  is_live = refl;
}

after_close : Table
after_close = table_or one_session (lxi_disconnect library one_session (pos 0))

closed_one : lxi_disconnect library one_session (pos 0) ≡ ok (lxi_ok, after_close)
unfolding after_close lxi_disconnect is_valid_session disconnect_session with_block free one_session
    initial lxi_init start init_loop
closed_one = refl

lxi_disconnect-Closed_example :
    (lxi_ok ≡ lxi_ok)
    × Inv after_close
    × ((p : ℕ) × (first_session.block ≡ some p)
        × Closed library one_session one_session-Inv 0 p after_close)
lxi_disconnect-Closed_example =
    lxi_disconnect-Closed library one_session one_session-Inv 0 first_session lxi_ok after_close
      first_there first_used closed_one

NotOpen-is_rejected_example :
    (lxi_send library one_session minus_one (1 ∷ []) 1 (pos 1000) ≡ ok (lxi_error, one_session))
    × (lxi_receive library one_session minus_one (1 ∷ []) 1 (pos 1000)
        ≡ ok ((lxi_error, 1 ∷ []), one_session))
    × (lxi_disconnect library one_session minus_one ≡ ok (lxi_error, one_session))
NotOpen-is_rejected_example =
    NotOpen-is_rejected library one_session minus_one (1 ∷ []) 1 (pos 1000) negative

handle_behind_table_example :
    (lxi_send library one_session (pos sessions_max) (1 ∷ []) 1 (pos 1000) ≡ fault bounds)
    × (lxi_receive library one_session (pos sessions_max) (1 ∷ []) 1 (pos 1000) ≡ fault bounds)
    × (lxi_disconnect library one_session (pos sessions_max) ≡ fault bounds)
handle_behind_table_example =
    handle_behind_table library one_session (1 ∷ []) 1 (pos 1000) one_session-Inv

transfers-open_example :
    (lxi_send library one_session (pos 0) (1 ∷ 2 ∷ []) 2 (pos 1000)
      ≡ ok (
        pos 2,
        record one_session {
          heap = update one_session.heap 0 (some 2);
          world = suc one_session.world;
        },
      ))
    × (lxi_receive library one_session (pos 0) (1 ∷ 2 ∷ []) 2 (pos 1000)
        ≡ ok (
          (pos 2, 7 ∷ 8 ∷ []),
          record one_session {
            heap = update one_session.heap 0 (some 2);
            world = suc one_session.world;
          },
        ))
unfolding first-IsOpen
transfers-open_example =
    transfers-open library one_session one_session-Inv 0 first_session first_there first_used
      first-IsOpen (1 ∷ 2 ∷ []) 2 (pos 1000)

lxi_connect_returns_example :
    (z : ℤ) × (st' : Table) × (lxi_connect library one_session [] minus_one none (pos 1000) raw
      ≡ ok (z, st'))
lxi_connect_returns_example =
    lxi_connect_returns library one_session [] minus_one none (pos 1000) raw λ m e. record {
      contents = 0;
      contents' = 1;
      world1 = suc one_session.world;
      world2 = suc (suc one_session.world);
      status = minus_one;
      allocates = refl;
      connects = refl;
    }
