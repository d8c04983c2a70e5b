-- ===== src/Server/Refusals.antt =====
-- Which calls device_core_1 of src/vxi11core_svc.c refuses as an unknown procedure.
use liblxi.Base.{ℕ, suc, ◌≡◌}
use liblxi.Xdr.{Xdr, M}
use liblxi.Client.{destroy_intr_chan}
use liblxi.Server.{nullproc}
use liblxi.Server.Interface.{Svc, Device}
use liblxi.Server.Procedures.{Procedure, number, Arg, local}

-- The numbers of the protocol's description.
pub data IsServed : ℕ → Type 0 where
  null_served : IsServed nullproc
  procedure_served : (p : Procedure) → IsServed (number p)
  destroy_served : IsServed destroy_intr_chan

-- `refusals` counts the replies that report an unknown procedure. Only svcerr_noproc() sends one.
pub record RefusalLaw {S W : Type 0} (svc : Svc S W) : Type 1 where
  pub refusals : W → ℕ
  pub noproc_refuses : (w : W) → refusals (svc.svcerr_noproc w) ≡ suc (refusals w)
  pub decode_keeps : (w : W) → refusals (svc.svcerr_decode w) ≡ refusals w
  pub systemerr_keeps : (w : W) → refusals (svc.svcerr_systemerr w) ≡ refusals w
  pub getargs_keeps :
      {A : Type 0} (f : A → M S A) (old : A) (w : W)
      → refusals (svc.svc_getargs f old w).1 ≡ refusals w
  pub sendreply_keeps :
      {B : Type 0} (f : B → M S B) (r : B) (w : W)
      → refusals (svc.svc_sendreply f r w).1 ≡ refusals w
  pub freeargs_keeps :
      {A : Type 0} (f : A → M S A) (a : A) (w : W)
      → refusals (svc.svc_freeargs f a w).1 ≡ refusals w

-- An implementation leaves the refusals to the dispatcher.
pub record LeavesRefusals {S W : Type 0} (svc : Svc S W) (law : RefusalLaw svc)
    (device : Device S W) : Type 1 where
  pub local_keeps :
      (p : Procedure) (a : Arg p) (w : W) → law.refusals (local device p a w).2 ≡ law.refusals w
  pub destroy_keeps :
      (w : W) → law.refusals (device.destroy_intr_chan_1_svc tt w).2 ≡ law.refusals w
  pub freeresult_keeps :
      {B : Type 0} (f : B → M S B) (r : B) (w : W)
      → law.refusals (device.device_core_1_freeresult f r w).1 ≡ law.refusals w
