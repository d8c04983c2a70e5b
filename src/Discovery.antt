-- ===== src/Discovery.antt =====
-- What the discovery in src/vxi11.c asks of its surroundings: the callbacks of lxi_info_t, the calls
-- for datagrams and network interfaces, and libxml2. They act on a state `W` of the world.
pub mod Identify
pub mod Document
pub mod Lines
pub mod Broadcast
pub mod Scan
pub mod Interfaces
-- pub mod Interfaces
-- pub mod Scan
use liblxi.Base.{ℕ, Option, List, ℤ, Bytes}
use liblxi.Net.{Timeval}
use liblxi.Core.{DeviceWriteResp, DeviceError}
use liblxi.Vxi11.{Vxi11Data}
use liblxi.Tcp.{TcpData}

-- lxi_info_t, where `none` is NULL.
pub record Info (W : Type 0) : Type 0 where
  pub broadcast : Option (Bytes → Bytes → W → W)
  pub device : Option (Bytes → Bytes → W → W)
  pub service : Option (Bytes → Bytes → Bytes → ℕ → W → W)

-- libxml2's documents. `xml_children_node` is the list that the field of that name heads, linked by
-- `next`; `xml_node_list_get_string` is given such a list.
pub record Xml (Doc Node : Type 0) : Type 0 where
  pub xml_recover_memory : Bytes → Option Doc
  pub xml_doc_get_root_element : Doc → Option Node
  pub xml_children_node : Node → List Node
  pub name : Node → Bytes
  pub xml_node_list_get_string : Doc → List Node → Option Bytes

-- The first contents of the variables that get_device_id() leaves uninitialised.
pub record Frame : Type 0 where
  pub vxi11_data : Vxi11Data
  pub write_resp : DeviceWriteResp
  pub device_error : DeviceError
  pub tcp_data : TcpData
  pub response : Bytes

-- struct ifaddrs: an address is its family and its number, and `none` is NULL.
pub record IfAddrs : Type 0 where
  pub ifa_name : Option Bytes
  pub ifa_addr : Option (ℕ × ℕ)
  pub ifa_broadaddr : Option (ℕ × ℕ)

-- `recvfrom` gives the count of bytes and the sender's address.
pub record Udp (W : Type 0) : Type 0 where
  pub socket : W → ℤ × W
  pub setsockopt_broadcast : ℤ → W → ℤ × W
  pub setsockopt_rcvtimeo : ℤ → Timeval → W → ℤ × W
  pub bind : ℤ → ℕ → ℕ → W → W
  pub sendto : ℤ → Bytes → ℕ → ℕ → W → W
  pub recvfrom : ℤ → ℕ → W → ℤ × ℕ × W
  pub shutdown : ℤ → W → W
  pub inet_ntoa : ℕ → Bytes
  pub getifaddrs : W → Option (List IfAddrs) × W
  pub freeifaddrs : List IfAddrs → W → W
