-- ===== src/Examples.antt =====
-- The theorems at work on concrete inputs: a small network, a small RPC device, an XDR stream in
-- memory and a small protocol stand for the code outside the repository.
mod Network
mod Tcp
mod Sessions
mod Threads
mod Device
mod Vxi11
mod Server
mod Discovery
mod Scanning
mod Browsing
mod Stream
mod Messages
