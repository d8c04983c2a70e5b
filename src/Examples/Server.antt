-- ===== src/Examples/Server.antt =====
-- The theorems on src/vxi11core_svc.c, on requests and replies in memory.
use liblxi.Base.{
  ℕ, ◌≤◌, ◌+◌, suc, ◌≡◌, refl, ap, Bool, true, false, Option, none, some, List, [], ◌∷◌, ◌++◌, ℤ,
  pos, Bytes, arith,
}
use liblxi.Xdr.{encode, decode}
use liblxi.Core.{DeviceError, DeviceGenericParms}
use liblxi.Xdr.Rules.{Codes}
use liblxi.Core.Routines.{xdr_device_error}
use liblxi.Core.Routines.Control.{xdr_device_remote_func}
use liblxi.Core.Wire.{
  wire_device_error, IsDeviceError, wire_device_remote_func, IsDeviceRemoteFunc,
  wire_device_generic_parms, wire_device_read_stb_resp,
}
use liblxi.Client.{device_readstb}
use liblxi.Base.{length}
use liblxi.Server.{device_core_1}
use liblxi.Server.Interface.{Svc, Device}
use liblxi.Server.Procedures.{procedure-Codes, reading_stb, interrupting}
use liblxi.Server.Answers.{last, SvcLaw, device_core_1_answers}
use liblxi.Server.Refusals.{RefusalLaw}
use liblxi.Core.{DeviceReadStbResp}
use liblxi.Core.Routines.Read.{xdr_device_read_stb_resp}
use liblxi.Examples.Stream.{Memory, memory_xdr, memory_observer, memory-XdrLaw}

record Desk : Type 0 where
  incoming : Memory
  outgoing : List Bytes
  served : ℕ
  refused : ℕ

abbrev fresh_stream : Memory
fresh_stream = record { direction = encode; output = []; input = []; space = 1000; window = 0 }

abbrev decoded : {A : Type 0} → Option (A × Memory) → Option A
decoded none = none
decoded (some (a, s)) = some a

abbrev sent_on : {B : Type 0} → Option (B × Memory) → Desk → Bool × Desk
sent_on none w = (false, w)
sent_on (some (b, s)) w = (true, record w { outgoing = w.outgoing ++ (s.output ∷ []) })

abbrev desk : Svc Memory Desk
desk = record {
  xdr_void = λ u s. some (u, s);
  svc_getargs = λ f old w. (decoded (f old w.incoming), w);
  svc_sendreply = λ f r w. sent_on (f r fresh_stream) w;
  svc_freeargs = λ f a w. (true, w);
  svcerr_noproc = λ w. record w { refused = suc w.refused };
  svcerr_decode = λ w. w;
  svcerr_systemerr = λ w. w;
}

sent_on-refused :
    {B : Type 0} (o : Option (B × Memory)) (w : Desk) → (sent_on o w).1.refused ≡ w.refused
sent_on-refused none w = refl
sent_on-refused (some (b, s)) w = refl

desk-SvcLaw : SvcLaw memory_xdr memory_observer desk
desk-SvcLaw = record {
  request = λ w. w.incoming;
  blank = fresh_stream;
  replies = λ w. w.outgoing;
  blank_encodes = refl;
  blank_pending = refl;
  blank_written = refl;
  getargs_decodes = λ f old a s w e. (w, ap (λ o. (decoded o, w)) e, refl);
  sendreply_sends = λ f r r' s w e.
      (record w { outgoing = w.outgoing ++ (s.output ∷ []) }, ap (λ o. sent_on o w) e, refl);
  freeargs_keeps = λ f a w. refl;
}

abbrev fine : {A : Type 0} → A → Desk → ℤ × DeviceError × Desk
fine a w = (pos 1, record { error = 0 }, record w { served = suc w.served })

-- An instrument that counts what it serves. Its status byte is the link's number plus that count.
abbrev instrument : Device Memory Desk
instrument = record {
  device_abort_1_svc = fine;
  create_link_1_svc =
      λ a w. (pos 1, record { error = 0; lid = 1; abort_port = 0; max_recv_size = 100 }, w);
  device_write_1_svc = λ a w. (pos 1, record { error = 0; size = 0 }, w);
  device_read_1_svc = λ a w. (pos 1, record { error = 0; reason = 4; payload = 1 ∷ [] }, w);
  device_readstb_1_svc = λ a w.
      (pos 1, record { error = 0; stb = a.lid + w.served }, record w { served = suc w.served });
  device_trigger_1_svc = fine;
  device_clear_1_svc = fine;
  device_remote_1_svc = fine;
  device_local_1_svc = fine;
  device_lock_1_svc = fine;
  device_unlock_1_svc = fine;
  device_enable_srq_1_svc = fine;
  device_docmd_1_svc = λ a w. (pos 1, record { error = 0; data_out = [] }, w);
  destroy_link_1_svc = fine;
  create_intr_chan_1_svc = fine;
  destroy_intr_chan_1_svc = fine;
  device_async_1_freeresult = λ f r w. (true, w);
  device_core_1_freeresult = λ f r w. (true, w);
}

abbrev question : DeviceGenericParms
question = record { lid = 7; flags = 0; lock_timeout = 0; io_timeout = 1000 }

abbrev asked : Desk
asked = record {
  incoming = record {
    direction = decode;
    output = [];
    input = wire_device_generic_parms question ++ (9 ∷ []);
    space = 0;
    window = 0;
  };
  outgoing = [];
  served = 0;
  refused = 0;
}

question_left :
    memory_observer.unread asked.incoming ≡ wire_device_generic_parms question ++ (9 ∷ [])
question_left = refl

abbrev status_byte : DeviceReadStbResp
status_byte = record { error = 0; stb = 7 }

-- The client's stream, with the reply.
abbrev delivered : Memory
delivered = record {
  direction = decode;
  output = [];
  input = wire_device_read_stb_resp status_byte ++ [];
  space = 0;
  window = 0;
}

reply_left : memory_observer.unread delivered ≡ wire_device_read_stb_resp status_byte ++ []
reply_left = refl

device_core_1_answers_example :
    (desk-SvcLaw.replies (last (device_core_1 memory_xdr desk instrument device_readstb asked))
      ≡ desk-SvcLaw.replies asked ++ (wire_device_read_stb_resp status_byte ∷ []))
    × ((s' : Memory) × (xdr_device_read_stb_resp memory_xdr
            (record { error = 9; stb = 9 })
            delivered
          ≡ some (status_byte, s')))
unfolding desk-SvcLaw wire_device_read_stb_resp
device_core_1_answers_example =
    device_core_1_answers memory_xdr memory_observer memory-XdrLaw desk desk-SvcLaw instrument
      reading_stb question status_byte (record { error = 9; stb = 9 }) asked delivered (9 ∷ []) []
      (record {
        lid = omega arith;
        flags = omega arith;
        lock_timeout = omega arith;
        io_timeout = omega arith;
      })
      (record { error = omega arith; stb = omega arith }) refl refl question_left room
      (record {
        retval = pos 1;
        world = record asked { served = 1 };
        runs = refl;
        succeeds = refl;
        sends_nothing = refl;
      })
      (λ w'. refl) refl refl reply_left
  where
    room : length (wire_device_read_stb_resp status_byte) ≤ 1000
    room = omega arith

desk-RefusalLaw : RefusalLaw desk
desk-RefusalLaw = record {
  refusals = λ w. w.refused;
  noproc_refuses = λ w. refl;
  decode_keeps = λ w. refl;
  systemerr_keeps = λ w. refl;
  getargs_keeps = λ f old w. refl;
  sendreply_keeps = λ f r w. sent_on-refused (f r fresh_stream) w;
  freeargs_keeps = λ f a w. refl;
}

procedure-Codes_example :
    Codes memory_xdr memory_observer
      (xdr_device_remote_func memory_xdr)
      wire_device_remote_func
      IsDeviceRemoteFunc
    × Codes memory_xdr memory_observer (xdr_device_error memory_xdr) wire_device_error IsDeviceError
procedure-Codes_example = procedure-Codes memory_xdr memory_observer memory-XdrLaw interrupting
