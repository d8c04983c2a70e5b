-- ===== src/Vxi11/Connect.antt =====
-- vxi11_connect and vxi11_disconnect of src/vxi11.c: the deadline, the RPC clients that are held, and
-- what a connection rests on.
pub mod Thread
use liblxi.Base.{
  ℕ, ◌+◌, ◌*◌, ◌/◌, ◌%◌, ◌^◌, ◌≤◌, ◌<◌, ◌≡◌, refl, ◌∙◌, ◌⊎◌, inl, inr, Option, none, some, List,
  ◌∷◌, pos, minus_one, ltb, ltb→lt, ◌+ℤ◌, ◌==◌, if◌then◌else◌, ok, Bytes, arith, Bool-cases,
}
use liblxi.Xdr.{Xdr}
use liblxi.Core.{CreateLinkParms, DeviceError}
use liblxi.Rpc.{Rpc, ClientLaw}
use liblxi.Client.{create_link_1, destroy_link_1}
use liblxi.Core.Routines.{
  xdr_create_link_parms, xdr_create_link_resp, xdr_device_link, xdr_device_error,
}
use liblxi.Vxi11.{
  Vxi11Data, device_core, device_core_version, default_device, deadline, request_link, create_link,
  vxi11_disconnect,
}

sum_pos : (a b : ℕ) → pos a +ℤ pos b ≡ pos (a + b)
sum_pos a b = ground arith

-- The deadline on numbers.
deadline_pos :
    (sec nsec timeout : ℕ)
    → let total : ℕ = nsec + timeout % 1000 * 1_000_000 in
      deadline (record { tv_sec = pos sec; tv_nsec = pos nsec }) (pos timeout) ≡ (
        if ltb total 1_000_000_000
        then record { tv_sec = pos (sec + timeout / 1000); tv_nsec = pos total }
        else record {
          tv_sec = pos (sec + timeout / 1000 + 1);
          tv_nsec = pos (total % 1_000_000_000);
        })
unfolding deadline
deadline_pos sec nsec timeout =
    let total : ℕ = nsec + timeout % 1000 * 1_000_000 in
    let e : total + 0 ≡ total = omega arith in
    rw
      (
        sum_pos nsec (timeout % 1000 * 1_000_000),
        sum_pos sec (timeout / 1000),
        sum_pos (sec + timeout / 1000) 1,
        e,
      )
      refl

-- For a clock reading with less than a second of nanoseconds and a timeout that is not negative, the
-- deadline has less than a second of nanoseconds too, and is the reading plus the timeout exactly.
pub deadline_adds :
    (sec nsec timeout : ℕ)
    → nsec < 1_000_000_000
    → (sec' nsec' : ℕ) × (deadline (record { tv_sec = pos sec; tv_nsec = pos nsec }) (pos timeout)
        ≡ record { tv_sec = pos sec'; tv_nsec = pos nsec' })
      × (nsec' < 1_000_000_000)
      × (sec' * 1_000_000_000 + nsec' ≡ sec * 1_000_000_000 + nsec + timeout * 1_000_000)
deadline_adds sec nsec timeout h =
    let total : ℕ = nsec + timeout % 1000 * 1_000_000 in
    let sums = deadline_pos sec nsec timeout in
    elim (Bool-cases (ltb total 1_000_000_000)) [
      | inl e ↦
          (sec + timeout / 1000, total, rw e at sums, ltb→lt total 1_000_000_000 e, omega arith)
      | inr e ↦
          let big : 1_000_000_000 ≤ total = ground arith in
          (sec + timeout / 1000 + 1, total % 1_000_000_000, rw e at sums, omega arith, omega arith)
    ]

module _ {S W : Type 0} (x : Xdr S) (rpc : Rpc S W) (law : ClientLaw rpc) where
  request_link_clients :
      (d : Vxi11Data) (c : ℕ) (name : Option Bytes) (w : W) (l : List ℕ)
      → law.clients w ≡ c ∷ l
      → let (status, d', w') = request_link x rpc d c name w in
        (d'.rpc_client ≡ some c)
        × (((status ≡ pos 0) × (law.clients w' ≡ c ∷ l))
            ⊎ ((status ≡ minus_one) × (law.clients w' ≡ l)))
  unfolding request_link create_link_1
  request_link_clients d c name w l h =
      let params : CreateLinkParms = record {
        client_id = c % 2 ^ 32;
        lock_device = 0;
        lock_timeout = 0;
        device = elim name [ none ↦ default_device | some given ↦ given ];
      } in
      let (status, resp, w1) = create_link_1 x rpc params d.link_resp c w in
      let h1 : law.clients w1 ≡ c ∷ l =
        law.call_keeps c _ (xdr_create_link_parms x) params (xdr_create_link_resp x) d.link_resp _ w
        ∙ h in
      elim (Bool-cases (status == 0)) [
        | inl e ↦ rw e (refl, inl (refl, h1))
        | inr e ↦ rw e (refl, inr (refl, law.destroy_removes c w1 l h1))
      ]

  create_link-none :
      (d : Vxi11Data) (address : Bytes) (name : Option Bytes) (w w1 : W)
      → rpc.clnt_create address device_core device_core_version w ≡ (none, w1)
      → create_link x rpc d address name w ≡ (minus_one, record d { rpc_client = none }, w1)
  unfolding create_link
  create_link-none d address name w w1 e = rw (e, create_link, e) refl

  create_link-some :
      (d : Vxi11Data) (address : Bytes) (name : Option Bytes) (w w1 : W) (c : ℕ)
      → rpc.clnt_create address device_core device_core_version w ≡ (some c, w1)
      → create_link x rpc d address name w ≡ request_link x rpc d c name w1
  unfolding create_link
  create_link-some d address name w w1 c e = rw (e, create_link, e) refl

  -- The connecting thread returns 0 and holds one client more, or returns -1 and holds those it
  -- held before. Only clnt_create() and clnt_destroy() change the clients.
  pub create_link_clients :
      (d : Vxi11Data) (address : Bytes) (name : Option Bytes) (w : W)
      → let (status, d', w') = create_link x rpc d address name w in
        ((status ≡ pos 0)
          × (c : ℕ) × (d'.rpc_client ≡ some c)
          × (law.clients w' ≡ c ∷ law.clients w))
        ⊎ ((status ≡ minus_one) × (law.clients w' ≡ law.clients w))
  create_link_clients d address name w =
      go (rpc.clnt_create address device_core device_core_version w) refl
    where
      go :
          (p : Option ℕ × W)
          → rpc.clnt_create address device_core device_core_version w ≡ p
          → let (status, d', w') = create_link x rpc d address name w in
            ((status ≡ pos 0)
              × (c : ℕ) × (d'.rpc_client ≡ some c)
              × (law.clients w' ≡ c ∷ law.clients w))
            ⊎ ((status ≡ minus_one) × (law.clients w' ≡ law.clients w))
      go (none, w1) e =
          rw (create_link-none d address name w w1 e)
            (inr (refl, law.create_fails address device_core device_core_version w w1 e))
      go (some c, w1) e =
          let h = law.create_adds address device_core device_core_version w w1 c e in
          let (held, outcome) = request_link_clients d c name w1 (law.clients w) h in
          rw (create_link-some d address name w w1 c e)
            (elim outcome [ inl (z, k) ↦ inl (z, c, held, k) | inr (m, k) ↦ inr (m, k) ])

  -- vxi11_disconnect on the data of a connection whose client is the newest one returns 0 and
  -- gives that client up, whatever the device answers. Only clnt_create() and clnt_destroy()
  -- change the clients.
  pub disconnect_clients :
      (d : Vxi11Data) (device_error : DeviceError) (c : ℕ) (w : W) (l : List ℕ)
      → d.rpc_client ≡ some c
      → law.clients w ≡ c ∷ l
      → (w' : W) × (vxi11_disconnect x rpc d device_error w ≡ ok (pos 0, d, w'))
        × (law.clients w' ≡ l)
  unfolding vxi11_disconnect destroy_link_1
  disconnect_clients d device_error c w l held h =
      let w1 : W = (destroy_link_1 x rpc d.link_resp.lid device_error c w).2 in
      let h1 : law.clients w1 ≡ c ∷ l =
        law.call_keeps c _ (xdr_device_link x) d.link_resp.lid (xdr_device_error x) device_error _ w
        ∙ h in
      (
        rpc.clnt_destroy c w1,
        let same : d ≡ record { rpc_client = some c; link_resp = d.link_resp } = rw held refl in
            rw same refl,
        law.destroy_removes c w1 l h1,
      )
