-- ===== src/Lib.antt =====
-- A model of liblxi, the C library for instruments on a local network, and what holds of it.
--
-- A caller opens a session with lxi_connect, gets a handle, and uses it with lxi_send, lxi_receive
-- and lxi_disconnect (src/lxi.c). A session is served by one of two protocols: raw TCP (src/tcp.c) or
-- VXI-11 (src/vxi11.c). VXI-11 is a remote procedure call protocol: its stubs are in
-- src/vxi11core_clnt.c, its messages in src/vxi11core.h, and their form on the wire in
-- src/vxi11core_xdr.c. With lxi_discover and lxi_discover_if a caller finds instruments: by a
-- broadcast to VXI-11 devices (src/vxi11.c), or over mDNS (src/mdns.c).
--
-- - Base: Boolean tests, lists, C's int as an integer, and `Run`, what a C call does: it returns, or
--   it meets a fault (a bad access, or the model's fuel has run out). `Bytes` is an array, and
--   `write_at` is a store into it that faults outside.
-- - Net: the system calls of src/tcp.c as an interface over a world, with POSIX's promises as laws.
-- - Tcp: tcp_connect, tcp_disconnect, tcp_send, tcp_receive and tcp_receive_wait. Below it, Receive,
--   Send and Connect hold the proofs on each.
-- - Xdr: the XDR library's routines as an interface over a stream, and the shape of the generated
--   code. Xdr.Rules has the standard's promises and the rules for composed routines.
-- - Core: the messages, their routines (Core.Routines), their form on the wire as
--   src/vxi11core.rpcl describes it (Core.Wire), and the proofs that they agree (Core.Codes).
-- - Rpc: the RPC library and the threads as interfaces. Client: the stubs of src/vxi11core_clnt.c.
-- - Vxi11: vxi11_connect, vxi11_disconnect, vxi11_send and vxi11_receive, with proofs in Receive,
--   Send and Connect.
-- - Server: the two dispatchers of src/vxi11core_svc.c and its main(). Server.Procedures lists the
--   procedures with their messages, Server.Interface the RPC library's calls and the implementation
--   of the procedures, which is not in the repository, and the proofs are in
--   Server.Answers and Server.Refusals.
-- - Discovery: the callbacks of lxi_info_t, and interfaces for datagrams, network interfaces and
--   libxml2. Below it, Identify models get_device_id and Broadcast discover_devices, vxi11_discover
--   and vxi11_discover_if of src/vxi11.c; Lines, Document, Scan and Interfaces hold the proofs.
-- - Avahi: src/avahi.c over an interface of the Avahi library, with proofs in Browsers and Discover.
-- - DnsSd: src/bonjour.c and src/cygwin_dnssd.c over an interface of the DNS-SD library.
-- - Discover: lxi_discover and lxi_discover_if of src/lxi.c, and mdns_discover of src/mdns.c.
-- - Backends: the four functions that a session calls, as an interface. Session: the table of
--   struct session_t, the blocks that malloc() gave out, and the public calls, with proofs in Table,
--   Calls, Invariant, Handles, Connect, Contract and Reach. Session.Threads has the steps of calls
--   from several threads, which other threads can come between, and schedules of them; its proofs
--   are in Races, Effects, Exclusive and Schedules. Session.Threads.Mutex adds session_mutex to the
--   state, with the locking and the unlocking as steps; its proofs are in Holding, Grant and Parts.
-- - Examples: concrete instances of the interfaces, and the theorems at work on them.
--
-- Fuel: the loops of tcp_send and tcp_receive run `length + 1` rounds, since each round but the last
-- moves a byte at least; the same holds for vxi11_receive with a device that gives a reason when it
-- sends nothing. The wait in vxi11_connect is given its number of rounds, which bounds the wake-ups.
-- A length is a natural number, the size of the caller's buffer. Where a caller passes an int, it is
-- an integer; bit patterns of 32 bits stand for the signed fields of messages.
--
-- The loop over the responses in discover_devices is given its number of rounds, one more than the
-- responses at least.
--
-- Not modelled: messages to stderr, and where it is sent; what other threads do while a protocol's
-- function runs for lxi_send or lxi_receive, which hold no lock; the release of libxml2's memory;
-- what Avahi does between its calls of the callbacks; the memory that browse_callback allocates for resolve_callback in
-- src/bonjour.c; src/cygwin/dns_sd.h, which is a copy of another project's header.
pub mod Base
pub mod Net
pub mod Tcp
pub mod Xdr
pub mod Core
pub mod Backends
pub mod Session
pub mod Rpc
pub mod Client
pub mod Vxi11
pub mod Server
pub mod Discovery
pub mod Avahi
pub mod DnsSd
pub mod Discover
pub mod Examples
