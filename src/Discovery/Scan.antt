-- ===== src/Discovery/Scan.antt =====
-- discover_devices of src/vxi11.c: its loop, on the responses to a broadcast.
use liblxi.Base.{
  ℕ, zero, suc, ◌<◌, ◌≡◌, refl, ap, ◌∙◌, inl, inr, true, false, some, List, [], ◌∷◌, ℤ, pos,
  is_positive, is_minus_one, is_zero, length, none, Option, sym, ◌++◌, append-nil, append_assoc,
  Fault, if◌then◌else◌, ◌↔◌, Run, ok, fault, ◌>>=◌, Run-cases, ok-injective, Bool-cases, Bytes,
  arith,
}
use liblxi.Net.{Net}
use liblxi.Tcp.{timeval_of_ms}
use liblxi.Xdr.{Xdr}
use liblxi.Rpc.{Rpc, Threads}
use liblxi.Vxi11.{Vxi11Data}
use liblxi.Discovery.{Info, Xml, Frame, Udp}
use liblxi.Discovery.Identify.{get_device_id, id_length_max}
use liblxi.Discovery.Broadcast.{
  port_rpc, rpc_getport_msg, notify, visit, response_loop, ask_devices, discover_devices,
}

-- What discover_devices does behind its loop.
abbrev after : {W : Type 0} → Run W → Run (ℤ × W)
after m = do w ← m; ok (pos 0, w)

after-ok : {W : Type 0} (m : Run W) (w' : W) → after m ≡ ok (pos 0, w') → m ≡ ok w'
after-ok {W = W} (ok w) w' e = ap ok (ap (λ (p : ℤ × W). p.1) (ok-injective e))
after-ok (fault why) w' e = absurd (cc)

-- A device that has responded: its address, and its ID if it was identified.
abbrev pub Visit : Type 0
Visit = ℕ × Option Bytes

module _ {S W Doc Node : Type 0} (x : Xdr S) (rpc : Rpc S W) (threads : Threads Vxi11Data W)
    (net : Net W) (udp : Udp W) (xml : Xml Doc Node) (rounds : ℕ) (frame : Frame) (info : Info W)
    (timeout : ℤ) (sockfd : ℤ) where
  -- The devices that a caller is to hear of, each with the text of its address and its ID.
  abbrev pub identified : List Visit → List (Bytes × Bytes)
  identified [] = []
  identified ((sender, none) ∷ visits) = identified visits
  identified ((sender, some id) ∷ visits) = (udp.inet_ntoa sender, id) ∷ identified visits

  -- `announced` is what the caller's callback has been given. Only the callback adds to it: neither
  -- a datagram that arrives nor the request for an ID does.
  pub record AnnounceLaw : Type 0 where
    pub announced : W → List (Bytes × Bytes)
    pub callback_adds :
        (address id : Bytes) (w : W)
        → announced (notify info.device address id w) ≡ announced w ++ ((address, id) ∷ [])
    pub recvfrom_keeps : (w : W) → announced (udp.recvfrom sockfd id_length_max w).2 ≡ announced w
    pub identifying_keeps :
        (address id id1 : Bytes) (status : ℤ) (w w1 : W)
        → get_device_id x rpc threads net xml rounds frame address id timeout w
          ≡ ok (status, id1, w1)
        → announced w1 ≡ announced w

  -- The responses that come, until none comes in time. For each, its sender is asked for its ID; the
  -- callback is given the address and the ID of a device that was identified, and is not called for
  -- another one.
  pub data Responses : Bytes → W → List Visit → W → Type 0 where
    quiet :
        {id : Bytes} {w w1 : W} {count : ℤ} {sender : ℕ}
        → udp.recvfrom sockfd id_length_max w ≡ (count, sender, w1)
        → is_positive count ≡ false
        → Responses id w [] w1
    named :
        {id id1 : Bytes} {w w1 w2 w' : W} {count status : ℤ} {sender : ℕ} {visits : List Visit}
        → udp.recvfrom sockfd id_length_max w ≡ (count, sender, w1)
        → is_positive count ≡ true
        → get_device_id x rpc threads net xml rounds frame (udp.inet_ntoa sender) id timeout w1
          ≡ ok (status, id1, w2)
        → is_zero status ≡ true
        → Responses id1 (notify info.device (udp.inet_ntoa sender) id1 w2) visits w'
        → Responses id w ((sender, some id1) ∷ visits) w'
    passed_over :
        {id id1 : Bytes} {w w1 w2 w' : W} {count status : ℤ} {sender : ℕ} {visits : List Visit}
        → udp.recvfrom sockfd id_length_max w ≡ (count, sender, w1)
        → is_positive count ≡ true
        → get_device_id x rpc threads net xml rounds frame (udp.inet_ntoa sender) id timeout w1
          ≡ ok (status, id1, w2)
        → is_zero status ≡ false
        → Responses id1 w2 visits w'
        → Responses id w ((sender, none) ∷ visits) w'

  -- What is done for one response, by the status of its identification.
  visit_lem :
      (sender : ℕ) (id id1 : Bytes) (status : ℤ) (w w1 : W)
      → get_device_id x rpc threads net xml rounds frame (udp.inet_ntoa sender) id timeout w
        ≡ ok (status, id1, w1)
      → visit x rpc threads net udp xml rounds frame info timeout sender id w ≡ (
          if is_zero status
          then ok (id1, notify info.device (udp.inet_ntoa sender) id1 w1)
          else ok (id1, w1))
  unfolding visit
  visit_lem sender id id1 status w w1 e = rw e refl

  response_loop-Responses :
      (f : ℕ) {id : Bytes} {w w' : W} {visits : List Visit}
      → Responses id w visits w'
      → length visits < f
      → response_loop x rpc threads net udp xml rounds frame info timeout f sockfd id w ≡ ok w'
  unfolding response_loop
  response_loop-Responses zero r h = absurd (omega arith)
  response_loop-Responses (suc f) (quiet e stop) h = rw (e, stop) refl
  response_loop-Responses (suc f) (named e more g z r) h =
      rw (e, more, visit_lem _ _ _ _ _ _ g, z) (response_loop-Responses f r (omega arith))
  response_loop-Responses (suc f) (passed_over e more g z r) h =
      rw (e, more, visit_lem _ _ _ _ _ _ g, z) (response_loop-Responses f r (omega arith))

  visit_faults :
      (sender : ℕ) (id : Bytes) (why : Fault) (w : W)
      → get_device_id x rpc threads net xml rounds frame (udp.inet_ntoa sender) id timeout w
        ≡ fault why
      → visit x rpc threads net udp xml rounds frame info timeout sender id w ≡ fault why
  unfolding visit
  visit_faults sender id why w e = rw e refl

  Responses-response_loop :
      (f : ℕ) (id : Bytes) (w w' : W)
      → response_loop x rpc threads net udp xml rounds frame info timeout f sockfd id w ≡ ok w'
      → (visits : List Visit) × Responses id w visits w' × (length visits < f)
  unfolding response_loop
  Responses-response_loop zero id w w' e = absurd (cc)
  Responses-response_loop (suc f) id w w' e =
      let p : ℤ × ℕ × W = udp.recvfrom sockfd id_length_max w in
      elim (Bool-cases (is_positive p.0)) [
        | inr stop ↦
            let same : ok p.2 ≡ ok w' = rw stop at e in
            ([], rw (← ok-injective same) (quiet refl stop), omega arith)
        | inl more ↦
            elim (Run-cases (
              get_device_id x rpc threads net xml rounds frame (udp.inet_ntoa p.1) id timeout
                p.2)) [
                  | inr (why, g) ↦
                      let failed : fault why ≡ ok w' = rw (more, visit_faults _ _ _ _ g) at e in
                      absurd (cc)
                  | inl ((status, id1, w2), g) ↦ elim (Bool-cases (is_zero status)) [
                    | inl good ↦
                        let (visits, r, h) =
                          Responses-response_loop f id1
                            (notify info.device (udp.inet_ntoa p.1) id1 w2) w'
                            (rw (more, visit_lem _ _ _ _ _ _ g, good) at e) in
                        ((p.1, some id1) ∷ visits, named refl more g good r, omega (arith, h))
                    | inr bad ↦
                        let (visits, r, h) =
                          Responses-response_loop f id1 w2 w'
                            (rw (more, visit_lem _ _ _ _ _ _ g, bad) at e) in
                        ((p.1, none) ∷ visits, passed_over refl more g bad r, omega (arith, h))
                  ]
                ]
      ]

  module _ (law : AnnounceLaw) where
    recv_keeps :
        {w w1 : W} {count : ℤ} {sender : ℕ}
        → udp.recvfrom sockfd id_length_max w ≡ (count, sender, w1)
        → law.announced w1 ≡ law.announced w
    recv_keeps {w} e = ap (λ (p : ℤ × ℕ × W). law.announced p.2) (sym e) ∙ law.recvfrom_keeps w

    Responses-announced :
        {id : Bytes} {w w' : W} {visits : List Visit}
        → Responses id w visits w'
        → law.announced w' ≡ law.announced w ++ identified visits
    Responses-announced {w} (quiet e stop) = recv_keeps e ∙ sym (append-nil (law.announced w))
    Responses-announced {w}
          (named {id} {id1} {w1 = w1} {w2} {status = status} {sender} {visits} e more g z r) =
        let pair : Bytes × Bytes = (udp.inet_ntoa sender, id1) in
        let before : law.announced w2 ≡ law.announced w =
          law.identifying_keeps _ _ _ _ _ _ g ∙ recv_keeps e in
        Responses-announced r
        ∙ ap (λ (l : List (Bytes × Bytes)). l ++ identified visits)
            (law.callback_adds (udp.inet_ntoa sender) id1 w2
              ∙ ap (λ (l : List (Bytes × Bytes)). l ++ (pair ∷ [])) before)
        ∙ append_assoc (law.announced w) (pair ∷ []) (identified visits)
    Responses-announced {w} (passed_over {visits = visits} e more g z r) =
        Responses-announced r
        ∙ ap (λ (l : List (Bytes × Bytes)). l ++ identified visits)
            (law.identifying_keeps _ _ _ _ _ _ g ∙ recv_keeps e)

    -- Where the socket is created and both options are set, discover_devices returns 0 in a state of
    -- the world exactly when the responses to its request lead there, fewer than the bound: each
    -- sender was asked for its ID, and the caller's callback has since been given the addresses and
    -- IDs of those that were identified, in the order of their responses, and of no other one. Only
    -- the callback adds to what it has been given.
    pub discover_devices-Responses :
        (f : ℕ) (id : Bytes) (address : ℕ) (w w1 w2 w3 w' : W) (broadcast limit : ℤ)
        → udp.socket w ≡ (sockfd, w1)
        → udp.setsockopt_broadcast sockfd w1 ≡ (broadcast, w2)
        → udp.setsockopt_rcvtimeo sockfd (timeval_of_ms timeout) w2 ≡ (limit, w3)
        → is_minus_one sockfd ≡ false
        → is_minus_one broadcast ≡ false
        → is_minus_one limit ≡ false
        → let asked : W =
            udp.sendto sockfd rpc_getport_msg address
              (net.htons port_rpc)
              (udp.bind sockfd 0 0 w3) in
          (discover_devices x rpc threads net udp xml rounds frame info timeout f id
              (some address)
              w
            ≡ ok (pos 0, w'))
          ↔ ((visits : List Visit) × Responses id asked visits w'
              × (length visits < f)
              × (law.announced w' ≡ law.announced asked ++ identified visits))
    unfolding discover_devices ask_devices
    discover_devices-Responses f id address w w1 w2 w3 w' broadcast limit e1 e2 e3 h1 h2 h3 =
        let asked : W =
          udp.sendto sockfd rpc_getport_msg address (net.htons port_rpc) (udp.bind sockfd 0 0 w3) in
        let step : discover_devices x rpc threads net udp xml rounds frame info timeout f id
              (some address) w
            ≡ after (
                response_loop x rpc threads net udp xml rounds frame info timeout f sockfd id
                  asked) =
          rw (e1, e2, e3, h1, h2, h3) refl in
        (
          λ e.
              let (visits, r, h) =
                Responses-response_loop f id asked w' (after-ok _ w' (rw step at e)) in
              (visits, r, h, Responses-announced r),
          λ (visits, r, h, same). step ∙ (rw (response_loop-Responses f r h) refl),
        )
