-- ===== src/Vxi11/Connect/Thread.antt =====
-- vxi11_connect of src/vxi11.c with its thread: what a connection that it reports rests on.
use liblxi.Xdr.{Xdr}
use liblxi.Rpc.{Rpc}
