-- ===== src/Net.antt =====
-- The system calls that src/tcp.c makes, as an interface over a state `W` of the world. The C
-- library and the kernel implement them, and this repository only calls them.
mod Laws
pub use Laws.*
