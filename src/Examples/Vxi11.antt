-- ===== src/Examples/Vxi11.antt =====
-- The theorems on src/vxi11.c, on the device of the examples.
use liblxi.Base.{
  ℕ, ◌+◌, ◌*◌, ◌≤◌, ◌<◌, ◌≡◌, ◌≢◌, ◌++◌, take, refl, ◌⊎◌, true, none, some, [], ◌∷◌, ℤ, pos,
  minus_one, length, ok, fault, bounds, Bytes, arith,
}
use liblxi.Xdr.{◌>>=◌, done}
use liblxi.Core.Routines.{xdr_device_error_code}
use liblxi.Core.Routines.Read.{xdr_device_read_resp}
use liblxi.Rpc.{Threads, woken}
use liblxi.Client.{device_read_1, device_write_1}
use liblxi.Vxi11.{Vxi11Data, deadline, create_link, vxi11_disconnect, vxi11_receive}
use liblxi.Vxi11.Receive.{
  ask, Replies, last_reply, more_follows, vxi11_receive-Replies, vxi11_receive_bounds,
  vxi11_receive_overruns,
}
use liblxi.Vxi11.Send.{write_params, vxi11_send_bounds}
use liblxi.Vxi11.{vxi11_send}
use liblxi.Vxi11.Connect.{deadline_adds, disconnect_clients}
use liblxi.Examples.Device.{
  numbers_xdr, Bench, bench_rpc, bench_answers, bench-DeviceLaw, bench-ClientLaw, bench-held,
  rude_rpc, eager_rpc, eager-AcceptLaw,
}

abbrev connection : Vxi11Data
connection = record {
  rpc_client = some 5;
  link_resp = record { error = 0; lid = 7; abort_port = 0; max_recv_size = 0 };
}

abbrev holding : Bytes → Bench
holding b = record { pending = b; held = 5 ∷ []; heard = [] }

short_reply :
    Replies numbers_xdr bench_rpc connection 5
      (pos 1000)
      4
      (holding (1 ∷ 2 ∷ []))
      ((1 ∷ 2 ∷ []) ∷ [])
      true
      (holding [])
short_reply = last_reply (bench_answers connection 5 (pos 1000) 4 (holding (1 ∷ 2 ∷ []))) refl refl

-- The device has one byte more than the buffer takes: a full buffer, and then a reply with no data.
long_reply :
    Replies numbers_xdr bench_rpc connection 5
      (pos 1000)
      2
      (holding (1 ∷ 2 ∷ 3 ∷ []))
      ((1 ∷ 2 ∷ []) ∷ [] ∷ [])
      true
      (holding (3 ∷ []))
long_reply =
    more_follows (bench_answers connection 5 (pos 1000) 2 (holding (1 ∷ 2 ∷ 3 ∷ []))) refl refl
      (last_reply (bench_answers connection 5 (pos 1000) 0 (holding (3 ∷ []))) refl refl)

vxi11_receive-Replies_example :
    vxi11_receive numbers_xdr bench_rpc connection
      (8 ∷ 9 ∷ [])
      2
      (pos 1000)
      (holding (1 ∷ 2 ∷ 3 ∷ []))
    ≡ ok (pos 2, 1 ∷ 2 ∷ [], connection, holding (3 ∷ []))
vxi11_receive-Replies_example =
    vxi11_receive-Replies numbers_xdr bench_rpc bench-DeviceLaw connection 5 (8 ∷ 9 ∷ []) 2
      (pos 1000) refl refl long_reply

vxi11_receive_bounds_example :
    (status : ℤ) × (message' : Bytes) × (w' : Bench) × (vxi11_receive numbers_xdr bench_rpc
        connection
        (8 ∷ 9 ∷ [])
        2
        (pos 1000)
        (holding (1 ∷ 2 ∷ 3 ∷ []))
      ≡ ok (status, message', connection, w'))
    × ((status ≡ minus_one) ⊎ ((n : ℕ) × (status ≡ pos n) × (n ≤ 2)))
    × (length message' ≡ 2)
vxi11_receive_bounds_example =
    vxi11_receive_bounds numbers_xdr bench_rpc bench-DeviceLaw connection 5 (8 ∷ 9 ∷ []) 2
      (pos 1000) (holding (1 ∷ 2 ∷ 3 ∷ [])) refl refl

rude_answers :
    ask numbers_xdr rude_rpc connection 5 (pos 1000) 2 (holding [])
    ≡ (0, record { error = 0; reason = 4; payload = 1 ∷ 2 ∷ 3 ∷ 4 ∷ [] }, holding [])
unfolding ◌>>=◌ done device_read_1 xdr_device_read_resp xdr_device_error_code
rude_answers = refl

vxi11_receive_overruns_example :
    vxi11_receive numbers_xdr rude_rpc connection (8 ∷ 9 ∷ []) 2 (pos 1000) (holding [])
    ≡ fault bounds
vxi11_receive_overruns_example =
    vxi11_receive_overruns numbers_xdr rude_rpc connection 5 (8 ∷ 9 ∷ []) 2 (pos 1000) 0
      (record { error = 0; reason = 4; payload = 1 ∷ 2 ∷ 3 ∷ 4 ∷ [] }) (holding []) (holding [])
      refl rude_answers (omega arith)

deadline_adds_example :
    (sec' nsec' : ℕ) × (deadline (record { tv_sec = pos 10; tv_nsec = pos 900_000_000 }) (pos 1500)
      ≡ record { tv_sec = pos sec'; tv_nsec = pos nsec' })
    × (nsec' < 1_000_000_000)
    × (sec' * 1_000_000_000 + nsec' ≡ 10 * 1_000_000_000 + 900_000_000 + 1500 * 1_000_000)
deadline_adds_example = deadline_adds 10 900_000_000 1500 (omega arith)

disconnect_clients_example :
    (w' : Bench) × (vxi11_disconnect numbers_xdr bench_rpc connection
        (record { error = 0 })
        (holding [])
      ≡ ok (pos 0, connection, w'))
    × (bench-ClientLaw.clients w' ≡ [])
disconnect_clients_example =
    disconnect_clients numbers_xdr bench_rpc bench-ClientLaw connection (record { error = 0 }) 5
      (holding []) [] refl (bench-held (holding []))

-- Threads that are created, and a connection that is made before the deadline.
abbrev punctual : Threads Vxi11Data Bench
punctual = record {
  clock_gettime = λ w. (some (record { tv_sec = pos 10; tv_nsec = pos 0 }), w);
  pthread_create = λ w. (true, w);
  cond_timedwait = λ until w. (woken, true, w);
  cancelled = λ d w. (d, w);
  cancelled_null = λ w. ok w;
}

abbrev made : ℤ × Vxi11Data × Bench
made = create_link numbers_xdr bench_rpc connection [] none (holding [])

abbrev three_bytes : Bytes
three_bytes = 1 ∷ 2 ∷ 3 ∷ []

vxi11_send_bounds_example :
    let called =
      device_write_1 numbers_xdr eager_rpc
        (write_params numbers_xdr eager_rpc connection three_bytes 3 (pos 1000))
        (record { error = 0; size = 0 })
        5
        (holding []) in
    (status : ℤ) × (w' : Bench) × (vxi11_send numbers_xdr eager_rpc connection
        (record { error = 0; size = 0 })
        three_bytes
        3
        (pos 1000)
        (holding [])
      ≡ ok (status, connection, w'))
    × (((called.0 ≢ 0) × (status ≡ minus_one))
        ⊎ ((n : ℕ) × (called.0 ≡ 0)
            × (status ≡ pos n)
            × (n ≤ 3)
            × (eager-AcceptLaw.accepted 7 w'
                ≡ eager-AcceptLaw.accepted 7 (holding []) ++ take n three_bytes)))
vxi11_send_bounds_example =
    vxi11_send_bounds numbers_xdr eager_rpc eager-AcceptLaw connection
      (record { error = 0; size = 0 }) 5 three_bytes 3 (pos 1000) (holding []) refl refl
      (omega arith)
