-- ===== src/Backends.antt =====
-- What src/lxi.c asks of a protocol: the four functions that struct session_t points to, over the
-- contents `D` of a session's block and a state `W` of the world.
use liblxi.Base.{ℕ, Option, ℤ, Run, Bytes}

-- The modules that implement a protocol: src/vxi11.c and src/tcp.c.
pub data Module : Type 0 where
  vxi11_module tcp_module : Module

-- `connect_null` is connect with NULL for its data: it has returned -1 without a look at the data, or
-- it has written through the pointer, which is a fault. tcp_connect always does the latter; for
-- vxi11_connect see vxi11_connect_null in Vxi11.
pub record Backend (D W : Type 0) : Type 0 where
  pub connect : D → Bytes → ℤ → Option Bytes → ℤ → W → Run (ℤ × D × W)
  pub connect_null : Bytes → ℤ → Option Bytes → ℤ → W → Run W
  pub disconnect : D → W → Run (ℤ × D × W)
  pub send : D → Bytes → ℕ → ℤ → W → Run (ℤ × D × W)
  pub receive : D → Bytes → ℕ → ℤ → W → Run (ℤ × Bytes × D × W)

-- malloc() of a module's data: the block's first contents, whatever they are, or a failure.
pub record Library (D W : Type 0) : Type 0 where
  pub backend : Module → Backend D W
  pub malloc : Module → W → Option D × W
