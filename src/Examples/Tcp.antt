-- ===== src/Examples/Tcp.antt =====
-- The theorems on src/tcp.c, on the network of the examples.
use liblxi.Base.{
  ℕ, ◌≤◌, ◌≡◌, refl, ◌⊎◌, none, some, List, [], ◌∷◌, ◌++◌, ℤ, pos, minus_one, length, ok, Bytes,
  arith,
}
use liblxi.Net.{SockAddr}
use liblxi.Tcp.{TcpData, open_socket, server_address, tcp_connect, tcp_send, tcp_receive}
use liblxi.Tcp.Receive.{Delivers, fails, piece}
use liblxi.Tcp.Receive.Reply.{tcp_receive_bounds, tcp_receive_two_pieces, tcp_receive_loses_piece}
use liblxi.Tcp.Send.{tcp_send_all_or_error}
use liblxi.Tcp.Send.Wire.{tcp_send_two_pieces, tcp_send_repeats_piece}
use liblxi.Tcp.Connect.{tcp_connect_fds, tcp_connect_leaks, tcp_connect_ignores_error}
use liblxi.Examples.Network.{World, network, network-RecvLaw, network-SendLaw, network-FdLaw}

abbrev with_pieces : List Bytes → World
with_pieces cs = record { pieces = cs; outgoing = []; open_fds = pos 0 ∷ [] }

abbrev quiet : World
quiet = with_pieces []

abbrev socket3 : TcpData
socket3 = record { server_socket = pos 3 }

abbrev buffer8 : Bytes
buffer8 = 0 ∷ 0 ∷ 0 ∷ 0 ∷ 0 ∷ 0 ∷ 0 ∷ 9 ∷ []

abbrev two_pieces : List Bytes
two_pieces = (1 ∷ 2 ∷ []) ∷ (3 ∷ 4 ∷ []) ∷ []

abbrev three_pieces : List Bytes
three_pieces = (1 ∷ 2 ∷ []) ∷ (3 ∷ 4 ∷ []) ∷ (5 ∷ 6 ∷ []) ∷ []

two_pieces-Delivers :
    Delivers network (pos 3) (pos 0x40) 8 (with_pieces two_pieces) two_pieces quiet
two_pieces-Delivers = piece refl (piece refl (fails refl))

three_pieces-Delivers :
    Delivers network (pos 3) (pos 0x40) 8 (with_pieces three_pieces) three_pieces quiet
three_pieces-Delivers = piece refl (piece refl (piece refl (fails refl)))

tcp_receive_bounds_example :
    (status : ℤ) × (message' : Bytes) × (w' : World) × (tcp_receive network socket3 buffer8 8
        (pos 1000)
        (with_pieces two_pieces)
      ≡ ok (status, message', socket3, w'))
    × ((status ≡ minus_one) ⊎ ((n : ℕ) × (status ≡ pos n) × (n ≤ 8)))
    × (length message' ≡ 8)
tcp_receive_bounds_example =
    tcp_receive_bounds network network-RecvLaw socket3 buffer8 8 (pos 1000) (with_pieces two_pieces)
      refl

tcp_receive_two_pieces_example :
    tcp_receive network socket3 buffer8 8 (pos 1000) (with_pieces two_pieces)
    ≡ ok (pos 4, 1 ∷ 2 ∷ 3 ∷ 4 ∷ 0 ∷ 0 ∷ 0 ∷ 9 ∷ [], socket3, quiet)
tcp_receive_two_pieces_example =
    tcp_receive_two_pieces network network-RecvLaw socket3 buffer8 8 0 (pos 1000)
      (with_pieces two_pieces) (with_pieces two_pieces) refl refl two_pieces-Delivers (omega arith)

tcp_receive_loses_piece_example :
    tcp_receive network socket3 buffer8 8 (pos 1000) (with_pieces three_pieces)
    ≡ ok (pos 6, 1 ∷ 2 ∷ 5 ∷ 6 ∷ 0 ∷ 0 ∷ 0 ∷ 9 ∷ [], socket3, quiet)
tcp_receive_loses_piece_example =
    tcp_receive_loses_piece network network-RecvLaw socket3 buffer8 8 0 (pos 1000)
      (with_pieces three_pieces) (with_pieces three_pieces) (1 ∷ 2 ∷ []) (3 ∷ 4 ∷ []) (5 ∷ 6 ∷ [])
      refl refl three_pieces-Delivers refl refl

abbrev having_sent : Bytes → World
having_sent bytes = record quiet { outgoing = bytes }

tcp_send_all_or_error_example :
    (status : ℤ) × (w' : World) × (tcp_send network socket3 (1 ∷ 2 ∷ 3 ∷ []) 3 (pos 1000) quiet
      ≡ ok (status, socket3, w'))
    × ((status ≡ minus_one) ⊎ (status ≡ pos 3))
tcp_send_all_or_error_example =
    tcp_send_all_or_error network network-SendLaw socket3 (1 ∷ 2 ∷ 3 ∷ []) 3 (pos 1000) quiet refl

tcp_send_two_pieces_example :
    (tcp_send network socket3 (1 ∷ 2 ∷ 3 ∷ []) 3 (pos 1000) quiet
      ≡ ok (pos 3, socket3, having_sent (1 ∷ 2 ∷ 3 ∷ [])))
    × (network-SendLaw.wire (having_sent (1 ∷ 2 ∷ 3 ∷ []))
        ≡ network-SendLaw.wire quiet ++ (1 ∷ 2 ∷ 3 ∷ []))
tcp_send_two_pieces_example =
    tcp_send_two_pieces network network-SendLaw socket3 (1 ∷ 2 ∷ 3 ∷ []) (1 ∷ 2 ∷ []) (3 ∷ [])
      (pos 1000) 0 quiet quiet (having_sent (1 ∷ 2 ∷ [])) (having_sent (1 ∷ 2 ∷ 3 ∷ [])) refl
      (omega arith) refl refl refl

tcp_send_repeats_piece_example :
    (tcp_send network socket3 (1 ∷ 2 ∷ 3 ∷ 4 ∷ 5 ∷ 6 ∷ []) 6 (pos 1000) quiet
      ≡ ok (pos 6, socket3, having_sent (1 ∷ 2 ∷ 3 ∷ 4 ∷ 3 ∷ 4 ∷ [])))
    × (network-SendLaw.wire (having_sent (1 ∷ 2 ∷ 3 ∷ 4 ∷ 3 ∷ 4 ∷ []))
        ≡ network-SendLaw.wire quiet ++ (1 ∷ 2 ∷ 3 ∷ 4 ∷ 3 ∷ 4 ∷ []))
tcp_send_repeats_piece_example =
    tcp_send_repeats_piece network network-SendLaw socket3 (1 ∷ 2 ∷ 3 ∷ 4 ∷ 5 ∷ 6 ∷ []) (1 ∷ 2 ∷ [])
      (3 ∷ 4 ∷ []) (5 ∷ 6 ∷ []) (pos 1000) 0 quiet quiet (having_sent (1 ∷ 2 ∷ []))
      (having_sent (1 ∷ 2 ∷ 3 ∷ 4 ∷ [])) (having_sent (1 ∷ 2 ∷ 3 ∷ 4 ∷ 3 ∷ 4 ∷ [])) refl
      (omega arith) refl refl refl refl refl refl

abbrev connected3 : World
connected3 = record quiet { open_fds = pos 3 ∷ pos 0 ∷ [] }

abbrev address_ip : Bytes
address_ip = 0x31 ∷ []

abbrev server : SockAddr
server = record { sin_port = 5025; s_addr = 0x0100_007f }

opened : open_socket network quiet ≡ (some (pos 2), socket3, connected3)
unfolding open_socket
opened = refl

found : server_address network address_ip (pos 5025) connected3 ≡ (some server, connected3)
unfolding server_address
found = refl

not_found : server_address network [] (pos 5025) connected3 ≡ (none, connected3)
unfolding server_address
not_found = refl

tcp_connect_fds_example :
    (status : ℤ) × (w' : World) × (tcp_connect network socket3 address_ip
        (pos 5025)
        none
        (pos 1000)
        quiet
      ≡ ok (status, socket3, w'))
    × (((status ≡ pos 0) × (network-FdLaw.fds w' ≡ pos 3 ∷ network-FdLaw.fds quiet))
        ⊎ ((status ≡ minus_one) × (network-FdLaw.fds w' ≡ network-FdLaw.fds quiet)))
tcp_connect_fds_example =
    tcp_connect_fds network network-FdLaw socket3 socket3 address_ip (pos 5025) none (pos 1000)
      (pos 2) server quiet connected3 connected3 opened found

tcp_connect_leaks_example :
    (tcp_connect network socket3 [] (pos 5025) none (pos 1000) quiet
      ≡ ok (minus_one, socket3, connected3))
    × (network-FdLaw.fds connected3 ≡ pos 3 ∷ network-FdLaw.fds quiet)
tcp_connect_leaks_example =
    tcp_connect_leaks network network-FdLaw socket3 socket3 [] (pos 5025) none (pos 1000) (pos 2)
      quiet connected3 connected3 opened not_found

tcp_connect_ignores_error_example :
    tcp_connect network socket3 address_ip (pos 5025) none (pos 1000) quiet
    ≡ ok (pos 0, socket3, connected3)
tcp_connect_ignores_error_example =
    tcp_connect_ignores_error network socket3 socket3 address_ip (pos 5025) none (pos 1000) (pos 2)
      (pos 111) server 0 0 quiet connected3 connected3 connected3 connected3 connected3 connected3
      opened found refl refl refl refl
