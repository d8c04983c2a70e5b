-- ===== src/Rpc.antt =====
-- The calls of the RPC library and of the threads' library that src/vxi11.c and src/vxi11core_clnt.c
-- make, as interfaces over a state `W` of the world.
use liblxi.Base.{Run, ℕ, ◌≡◌, Bool, Option, some, none, List, ◌∷◌, ℤ, Bytes}
use liblxi.Xdr.{M}

-- A client is known by its handle. `clnt_call` is given the procedure, the routine and the object
-- for the arguments, the routine and the object for the results, and the timeout in seconds; it
-- returns the status, where 0 is RPC_SUCCESS, and the results. `xdr_void` is the routine for no data.
pub record Rpc (S W : Type 0) : Type 1 where
  pub xdr_void : Unit {0} → M S (Unit {0})
  pub clnt_create : Bytes → ℕ → ℕ → W → Option ℕ × W
  pub clnt_destroy : ℕ → W → W
  pub clnt_call : {A B : Type 0} → ℕ → ℕ → (A → M S A) → A → (B → M S B) → B → ℕ → W → ℕ × B × W

-- The clients that the process holds, the newest first. Only creating and destroying change them.
pub record ClientLaw {S W : Type 0} (rpc : Rpc S W) : Type 1 where
  pub clients : W → List ℕ
  pub create_adds :
      (address : Bytes) (program version : ℕ) (w w' : W) (client : ℕ)
      → rpc.clnt_create address program version w ≡ (some client, w')
      → clients w' ≡ client ∷ clients w
  pub create_fails :
      (address : Bytes) (program version : ℕ) (w w' : W)
      → rpc.clnt_create address program version w ≡ (none, w')
      → clients w' ≡ clients w
  pub destroy_removes :
      (client : ℕ) (w : W) (l : List ℕ)
      → clients w ≡ client ∷ l
      → clients (rpc.clnt_destroy client w) ≡ l
  pub call_keeps :
      {A B : Type 0} (client procedure : ℕ) (f : A → M S A) (a : A) (g : B → M S B) (b : B)
      (seconds : ℕ) (w : W)
      → clients (rpc.clnt_call client procedure f a g b seconds w).2 ≡ clients w

-- struct timespec
pub record Timespec : Type 0 where
  pub tv_sec : ℤ
  pub tv_nsec : ℤ

-- The outcomes of pthread_cond_timedwait() that the code tells apart.
pub data Waited : Type 0 where
  woken timed_out : Waited

-- `cond_timedwait` also gives the flag that the waiting thread sets when it has joined. `cancelled`
-- is what the connecting thread has done to its data when it is cancelled at the timeout, and
-- `cancelled_null` what it has done when that data is NULL: a fault, if clnt_create() had returned.
pub record Threads (D W : Type 0) : Type 0 where
  pub clock_gettime : W → Option Timespec × W
  pub pthread_create : W → Bool × W
  pub cond_timedwait : Timespec → W → Waited × Bool × W
  pub cancelled : D → W → D × W
  pub cancelled_null : W → Run W
