-- ===== src/Discovery/Identify.antt =====
-- src/vxi11.c: get_element_value and get_device_id. Messages to stderr, where they go and the
-- release of libxml2's memory are left out.
use liblxi.Base.{
  ℕ, zero, suc, ◌-◌, Option, none, some, List, [], ◌∷◌, ℤ, pos, negsuc, minus_one, is_negative, leb,
  ◌==◌, if◌then◌else◌, length, get_elem?, Run, ok, fault, bounds, null, ◌>>=◌, or_fault, Bytes,
  write_at, c_string, strcat, same_text, strstr,
}
use liblxi.Net.{Net}
use liblxi.Xdr.{Xdr}
use liblxi.Rpc.{Rpc, Threads}
use liblxi.Vxi11.{Vxi11Data, vxi11_connect, vxi11_send, vxi11_receive, vxi11_disconnect}
use liblxi.Tcp.{tcp_connect, tcp_send, tcp_receive_wait, tcp_disconnect}
use liblxi.Discovery.{Xml, Frame}

abbrev pub port_http : ℤ
port_http = pos 80

abbrev pub id_length_max : ℕ
id_length_max = 65_536

-- "GET /lxi/identification HTTP/1.0\r\n\r\n"
abbrev pub id_req_http : Bytes
id_req_http =
    0x47 ∷ 0x45 ∷ 0x54 ∷ 0x20 ∷ 0x2f ∷ 0x6c ∷ 0x78 ∷ 0x69 ∷ 0x2f ∷ 0x69 ∷ 0x64 ∷ 0x65 ∷ 0x6e ∷ 0x74
    ∷ 0x69 ∷ 0x66 ∷ 0x69 ∷ 0x63 ∷ 0x61 ∷ 0x74 ∷ 0x69 ∷ 0x6f ∷ 0x6e ∷ 0x20 ∷ 0x48 ∷ 0x54 ∷ 0x54
    ∷ 0x50 ∷ 0x2f ∷ 0x31 ∷ 0x2e ∷ 0x30 ∷ 0x0d ∷ 0x0a ∷ 0x0d ∷ 0x0a ∷ []

-- "*IDN?\n"
abbrev pub id_req_scpi : Bytes
id_req_scpi = 0x2a ∷ 0x49 ∷ 0x44 ∷ 0x4e ∷ 0x3f ∷ 0x0a ∷ []

-- "<?xml"
abbrev pub xml_start : Bytes
xml_start = 0x3c ∷ 0x3f ∷ 0x78 ∷ 0x6d ∷ 0x6c ∷ []

-- "Manufacturer"
abbrev pub manufacturer : Bytes
manufacturer =
    0x4d ∷ 0x61 ∷ 0x6e ∷ 0x75 ∷ 0x66 ∷ 0x61 ∷ 0x63 ∷ 0x74 ∷ 0x75 ∷ 0x72 ∷ 0x65 ∷ 0x72 ∷ []

-- "Model"
abbrev pub model : Bytes
model = 0x4d ∷ 0x6f ∷ 0x64 ∷ 0x65 ∷ 0x6c ∷ []

-- "SerialNumber"
abbrev pub serial_number : Bytes
serial_number =
    0x53 ∷ 0x65 ∷ 0x72 ∷ 0x69 ∷ 0x61 ∷ 0x6c ∷ 0x4e ∷ 0x75 ∷ 0x6d ∷ 0x62 ∷ 0x65 ∷ 0x72 ∷ []

-- "FirmwareRevision"
abbrev pub firmware_revision : Bytes
firmware_revision =
    0x46 ∷ 0x69 ∷ 0x72 ∷ 0x6d ∷ 0x77 ∷ 0x61 ∷ 0x72 ∷ 0x65 ∷ 0x52 ∷ 0x65 ∷ 0x76 ∷ 0x69 ∷ 0x73 ∷ 0x69
    ∷ 0x6f ∷ 0x6e ∷ []

-- ","
abbrev pub comma : Bytes
comma = 0x2c ∷ []

-- id[length - 1]
unfoldable pub last_char : Bytes → ℕ → Run ℕ
last_char id zero = fault bounds
last_char id (suc n) = or_fault (get_elem? id n) bounds

-- `if (id[length - 1] == c) id[--length] = 0;`
unfoldable pub strip_char : ℕ → Bytes → ℕ → Run (Bytes × ℕ)
strip_char c id n = do
  last ← last_char id n
  let shorter = do id' ← write_at id (n - 1) (0 ∷ []); ok (id', n - 1)
  if last == c then shorter else ok (id, n)

-- Both strips of get_device_id, the newline's and the carriage return's.
unfoldable pub strip : Bytes → ℕ → Run Bytes
strip id n = do (id1, n1) ← strip_char 0x0a id n; (id2, n2) ← strip_char 0x0d id1 n1; ok id2

module _ {Doc Node : Type 0} (xml : Xml Doc Node) where
  -- The loop of get_element_value.
  unfoldable pub find_value : Doc → Bytes → List Node → Option Bytes
  find_value doc element [] = none
  find_value doc element (node ∷ nodes) =
      if same_text (xml.name node) element
      then xml.xml_node_list_get_string doc (xml.xml_children_node node)
      else find_value doc element nodes

  unfoldable pub get_element_value : Doc → Bytes → Run (Option Bytes)
  get_element_value doc element = do
    root ← or_fault (xml.xml_doc_get_root_element doc) null
    ok (find_value doc element (xml.xml_children_node root))

  -- One element's value, behind the text in `id`. strcat() of NULL is a fault.
  unfoldable pub append_value : Doc → Bytes → Bytes → Run Bytes
  append_value doc element id = do
    value ← get_element_value doc element
    text ← or_fault value null
    strcat id text

  -- The assembly of the ID string.
  unfoldable pub assemble_id : Doc → Bytes → Run Bytes
  assemble_id doc id = do
    id0 ← write_at id 0 (0 ∷ [])
    id1 ← append_value doc manufacturer id0
    id2 ← strcat id1 comma
    id3 ← append_value doc model id2
    id4 ← strcat id3 comma
    id5 ← append_value doc serial_number id4
    id6 ← strcat id5 comma
    append_value doc firmware_revision id6

module _ {S W Doc Node : Type 0} (x : Xdr S) (rpc : Rpc S W) (threads : Threads Vxi11Data W)
    (net : Net W) (xml : Xml Doc Node) (rounds : ℕ) (frame : Frame) where
  -- The fallback for a device that answers with no byte. The statuses of the TCP functions are not
  -- looked at.
  unfoldable pub id_via_http : Bytes → Bytes → ℤ → W → Run (ℤ × Bytes × W)
  id_via_http address id timeout w = do
    (s1, d1, w1) ← tcp_connect net frame.tcp_data address port_http none timeout w
    (s2, d2, w2) ← tcp_send net d1 id_req_http (length id_req_http) timeout w1
    (s3, response, d3, w3) ← tcp_receive_wait net d2 frame.response 4096 timeout w2
    (s4, d4, w4) ← tcp_disconnect net d3 w3
    text ← c_string response
    let doc = text_doc (strstr text xml_start)
    elim doc [
      | none ↦ ok (minus_one, id, w4)
      | some found ↦ do id' ← assemble_id xml found id; ok (pos 0, id', w4)
    ]
    where
      text_doc : Option Bytes → Option Doc
      text_doc none = none
      text_doc (some response_xml) = xml.xml_recover_memory response_xml

  -- The labels error_receive and error_send.
  unfoldable pub hang_up : Vxi11Data → Bytes → W → Run (ℤ × Bytes × W)
  hang_up d id w = do
    (status, d', w') ← vxi11_disconnect x rpc d frame.device_error w
    ok (minus_one, id, w')

  -- What follows a reply of `n` bytes, from the disconnect on.
  unfoldable pub use_reply : Vxi11Data → Bytes → Bytes → ℕ → ℤ → W → Run (ℤ × Bytes × W)
  use_reply d address id n timeout w = do
    (status, d', w') ← vxi11_disconnect x rpc d frame.device_error w
    id1 ← write_at id n (0 ∷ [])
    let stripped = do id2 ← strip id1 n; ok (pos 0, id2, w')
    let fallback = id_via_http address id1 timeout w'
    if leb 1 n then stripped else fallback

  -- get_device_id from its vxi11_receive() on.
  unfoldable pub receive_id : Vxi11Data → Bytes → Bytes → ℤ → W → Run (ℤ × Bytes × W)
  receive_id d address id timeout w = do
    (len, id1, d1, w1) ← vxi11_receive x rpc d id id_length_max timeout w
    elim len [ negsuc n ↦ hang_up d1 id1 w1 | pos n ↦ use_reply d1 address id1 n timeout w1 ]

  -- get_device_id from its vxi11_send() on.
  unfoldable pub request_id : Vxi11Data → Bytes → Bytes → ℤ → W → Run (ℤ × Bytes × W)
  request_id d address id timeout w = do
    (len, d1, w1) ← vxi11_send x rpc d frame.write_resp id_req_scpi (length id_req_scpi) timeout w
    let failed = hang_up d1 id w1
    let rest = receive_id d1 address id timeout w1
    if is_negative len then failed else rest

  unfoldable pub get_device_id : Bytes → Bytes → ℤ → W → Run (ℤ × Bytes × W)
  get_device_id address id timeout w = do
    (device, d, w1) ←
        vxi11_connect x rpc threads rounds frame.vxi11_data address (pos 0) none timeout w
    let rest = request_id d address id timeout w1
    if is_negative device then ok (minus_one, id, w1) else rest
