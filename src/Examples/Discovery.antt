-- ===== src/Examples/Discovery.antt =====
-- The theorems on the discovery of src/vxi11.c, on a device that answers with one line.
use liblxi.Base.{
  ℕ, suc, ◌+◌, ◌≤◌, ◌<◌, ◌≡◌, refl, ◌⊎◌, ◌↔◌, inl, inr, Bool, true, false, none, some, List, [],
  ◌∷◌, ◌++◌, ℤ, pos, minus_one, length, replicate, length-replicate, drop, Run, ok, fault, bounds,
  null, Option, Bytes, c_string, arith,
}
use liblxi.Net.{Net, gai_error, recv_failed, send_failed, refused}
use liblxi.Xdr.{◌>>=◌, done, by_op, if_inline}
use liblxi.Core.Routines.{
  xdr_device_link, xdr_device_error_code, xdr_create_link_resp, xdr_create_link_parms,
  create_link_parms_slow, create_link_parms_rest, xdr_device_error, xdr_device_write_parms,
  xdr_device_write_resp, xdr_device_flags,
}
use liblxi.Rpc.{Threads, woken}
use liblxi.Client.{create_link_1, device_write_1, destroy_link_1}
use liblxi.Vxi11.{
  Vxi11Data, vxi11_connect, await_link, timed_join, join_loop, create_link, request_link,
  vxi11_send, vxi11_receive, vxi11_disconnect,
}
use liblxi.Vxi11.Receive.{Replies, last_reply, vxi11_receive-Replies}
use liblxi.Discovery.{Xml, Frame}
use liblxi.Discovery.Document.{assemble_id-joins}
use liblxi.Discovery.Identify.{
  manufacturer, model, serial_number, firmware_revision, find_value, assemble_id, id_req_scpi,
  id_length_max, get_device_id,
}
use liblxi.Discovery.Lines.{cr_lf, get_device_id-line, get_device_id_overruns}
use liblxi.Examples.Device.{numbers_xdr, Bench, bench_rpc, bench_answers, bench-DeviceLaw}

abbrev pub punctual : Threads Vxi11Data Bench
punctual = record {
  clock_gettime = λ w. (some (record { tv_sec = pos 10; tv_nsec = pos 0 }), w);
  pthread_create = λ w. (true, w);
  cond_timedwait = λ until w. (woken, true, w);
  cancelled = λ d w. (d, w);
  cancelled_null = λ w. ok w;
}

-- A network that reaches nothing.
abbrev pub silent : Net Bench
silent = record {
  socket = λ w. (minus_one, w);
  fcntl_getfl = λ fd w. (minus_one, w);
  fcntl_setfl = λ fd opt w. (minus_one, w);
  or_nonblock = λ opt. opt;
  htons = λ n. n;
  inet_addr = λ a. 0;
  decimal = λ n. [];
  getaddrinfo = λ a p w. (gai_error (pos 1), w);
  connect = λ fd a w. (refused, w);
  select_write = λ fd tv w. (minus_one, w);
  select_read = λ fd tv w. (minus_one, w);
  getsockopt_error = λ fd w. (minus_one, pos 0, w);
  close = λ fd w. w;
  send = λ fd b w. (send_failed, w);
  recv = λ fd n flags w. (recv_failed, w);
}

-- Documents that are lists of elements with a name and a text.
pub data Node : Type 0 where
  root_node : List (Bytes × Bytes) → Node
  element : Bytes → Bytes → Node
  text_node : Bytes → Node

abbrev elements_of : List (Bytes × Bytes) → List Node
elements_of [] = []
elements_of ((name, text) ∷ rest) = element name text ∷ elements_of rest

abbrev children : Node → List Node
children (root_node doc) = elements_of doc
children (element name text) = text_node text ∷ []
children (text_node text) = []

abbrev name_of : Node → Bytes
name_of (root_node doc) = []
name_of (element name text) = name
name_of (text_node text) = []

abbrev text_of : List Node → Option Bytes
text_of [] = none
text_of (root_node doc ∷ nodes) = none
text_of (element name text ∷ nodes) = none
text_of (text_node text ∷ nodes) = some text

abbrev pub elements : Xml (List (Bytes × Bytes)) Node
elements = record {
  xml_recover_memory = λ text. none;
  xml_doc_get_root_element = λ doc. some (root_node doc);
  xml_children_node = children;
  name = name_of;
  xml_node_list_get_string = λ doc nodes. text_of nodes;
}

abbrev pub frame : Frame
frame = record {
  vxi11_data = record {
    rpc_client = none;
    link_resp = record { error = 0; lid = 0; abort_port = 0; max_recv_size = 0 };
  };
  write_resp = record { error = 0; size = 0 };
  device_error = record { error = 0 };
  tcp_data = record { server_socket = pos 0 };
  response = [];
}

abbrev linked : Vxi11Data
linked = record {
  rpc_client = some 5;
  link_resp = record { error = 0; lid = 1; abort_port = 0; max_recv_size = 0 };
}

abbrev pub holding : Bytes → List ℕ → Bench
holding b l = record { pending = b; held = l; heard = [] }

-- "AB\r\n"
abbrev line : Bytes
line = 0x41 ∷ 0x42 ∷ 0x0d ∷ 0x0a ∷ []

-- Buffers of 65,536 bytes.
abbrev back : Bytes
back = replicate 65_531 0

abbrev buffer : Bytes
buffer = 0 ∷ 0 ∷ 0 ∷ 0 ∷ 0 ∷ back

length-buffer : length buffer ≡ id_length_max
length-buffer = omega (arith, length-replicate {A = ℕ} 65_531 0)

line_connects :
    vxi11_connect numbers_xdr bench_rpc punctual 1 frame.vxi11_data []
      (pos 0)
      none
      (pos 0)
      (holding line [])
    ≡ ok (pos 0, linked, holding line (5 ∷ []))
unfolding vxi11_connect await_link timed_join join_loop create_link request_link create_link_1 ◌>>=◌
    done by_op if_inline xdr_create_link_resp xdr_create_link_parms create_link_parms_slow
    create_link_parms_rest xdr_device_error_code xdr_device_link
line_connects = refl

line_sends :
    vxi11_send numbers_xdr bench_rpc linked frame.write_resp id_req_scpi 6
      (pos 0)
      (holding line (5 ∷ []))
    ≡ ok (pos 1, linked, holding line (5 ∷ []))
unfolding vxi11_send device_write_1 ◌>>=◌ done by_op if_inline xdr_device_write_parms
    xdr_device_write_resp xdr_device_error_code xdr_device_link xdr_device_flags
    liblxi.Base.Memory.read_at
line_sends = refl

line-Replies :
    Replies numbers_xdr bench_rpc linked 5
      (pos 0)
      id_length_max
      (holding line (5 ∷ []))
      (line ∷ [])
      true
      (holding [] (5 ∷ []))
line-Replies =
    last_reply (bench_answers linked 5 (pos 0) id_length_max (holding line (5 ∷ []))) refl refl

line_receives :
    vxi11_receive numbers_xdr bench_rpc linked buffer id_length_max (pos 0) (holding line (5 ∷ []))
    ≡ ok (pos 4, line ++ (0 ∷ back), linked, holding [] (5 ∷ []))
line_receives =
    vxi11_receive-Replies numbers_xdr bench_rpc bench-DeviceLaw linked 5 buffer id_length_max
      (pos 0) refl length-buffer line-Replies

disconnects :
    vxi11_disconnect numbers_xdr bench_rpc linked frame.device_error (holding [] (5 ∷ []))
    ≡ ok (pos 0, linked, holding [] [])
unfolding vxi11_disconnect destroy_link_1 ◌>>=◌ done xdr_device_error xdr_device_link
    xdr_device_error_code
disconnects = refl

get_device_id-line_example :
    (id' : Bytes) × (get_device_id numbers_xdr bench_rpc punctual silent elements 1 frame [] buffer
        (pos 0)
        (holding line [])
      ≡ ok (pos 0, id', holding [] []))
    × (c_string id' ≡ ok (0x41 ∷ 0x42 ∷ []))
get_device_id-line_example =
    get_device_id-line numbers_xdr bench_rpc punctual silent elements 1 frame [] buffer (pos 0) 4
      (holding line []) (holding line (5 ∷ [])) (holding line (5 ∷ [])) (holding [] (5 ∷ []))
      (holding [] []) linked linked linked linked 0 1 (pos 0) (line ++ (0 ∷ back)) line_connects
      line_sends line_receives disconnects (0x41 ∷ []) 0x42 (0x0d ∷ 0x0a ∷ []) 0 back
      (omega arith, (omega arith, tt)) (ground arith) (ground arith) cr_lf refl refl

-- A reply of a newline alone.
abbrev newline : Bytes
newline = 0x0a ∷ []

newline_connects :
    vxi11_connect numbers_xdr bench_rpc punctual 1 frame.vxi11_data []
      (pos 0)
      none
      (pos 0)
      (holding newline [])
    ≡ ok (pos 0, linked, holding newline (5 ∷ []))
unfolding vxi11_connect await_link timed_join join_loop create_link request_link create_link_1 ◌>>=◌
    done by_op if_inline xdr_create_link_resp xdr_create_link_parms create_link_parms_slow
    create_link_parms_rest xdr_device_error_code xdr_device_link
newline_connects = refl

newline_sends :
    vxi11_send numbers_xdr bench_rpc linked frame.write_resp id_req_scpi 6
      (pos 0)
      (holding newline (5 ∷ []))
    ≡ ok (pos 1, linked, holding newline (5 ∷ []))
unfolding vxi11_send device_write_1 ◌>>=◌ done by_op if_inline xdr_device_write_parms
    xdr_device_write_resp xdr_device_error_code xdr_device_link xdr_device_flags
    liblxi.Base.Memory.read_at
newline_sends = refl

newline_receives :
    vxi11_receive numbers_xdr bench_rpc linked buffer id_length_max
      (pos 0)
      (holding newline (5 ∷ []))
    ≡ ok (pos 1, newline ++ (0 ∷ 0 ∷ 0 ∷ 0 ∷ back), linked, holding [] (5 ∷ []))
newline_receives =
    vxi11_receive-Replies numbers_xdr bench_rpc bench-DeviceLaw linked 5 buffer id_length_max
      (pos 0) refl length-buffer
      (last_reply (bench_answers linked 5 (pos 0) id_length_max (holding newline (5 ∷ []))) refl
        refl)

get_device_id_overruns_example :
    get_device_id numbers_xdr bench_rpc punctual silent elements 1 frame [] buffer
      (pos 0)
      (holding newline [])
    ≡ fault bounds
get_device_id_overruns_example =
    get_device_id_overruns numbers_xdr bench_rpc punctual silent elements 1 frame [] buffer (pos 0)
      1 (holding newline []) (holding newline (5 ∷ [])) (holding newline (5 ∷ []))
      (holding [] (5 ∷ [])) (holding [] []) linked linked linked linked 0 1 (pos 0)
      (newline ++ (0 ∷ 0 ∷ 0 ∷ 0 ∷ back)) newline_connects newline_sends newline_receives
      disconnects (inl (0 ∷ 0 ∷ 0 ∷ 0 ∷ back, refl, refl))

-- The four elements, out of order.
abbrev document : List (Bytes × Bytes)
document =
    (model, 2 ∷ [])
    ∷ (manufacturer, 1 ∷ 1 ∷ [])
    ∷ (firmware_revision, [])
    ∷ (serial_number, 3 ∷ [])
    ∷ []

assemble_id-joins_example :
    (id' : Bytes) × (assemble_id elements document (replicate 20 9) ≡ ok id')
    × (c_string id' ≡ ok (1 ∷ 1 ∷ 0x2c ∷ 2 ∷ 0x2c ∷ 3 ∷ 0x2c ∷ []))
unfolding find_value
assemble_id-joins_example =
    assemble_id-joins elements document (root_node document) refl (replicate 20 9) (1 ∷ 1 ∷ [])
      (2 ∷ []) (3 ∷ []) [] refl refl refl refl (omega arith, (omega arith, tt)) (omega arith, tt)
      (omega arith, tt) tt (omega arith)
