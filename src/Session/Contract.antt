-- ===== src/Session/Contract.antt =====
-- The contract of lxi_connect in src/lxi.c, over an abstract view: which handles are open, and with
-- which protocol. And what it does to memory.
use mathlib.Core.Path.{subst}
use liblxi.Base.{
  ℕ, suc, ◌<◌, ◌≡◌, refl, sym, ap, ◌∙◌, ◌≢◌, inl, inr, Option, none, some, get_elem?, set,
  get_elem?-set, get_elem?-lt, get_elem?-in, ◌==◌, ==_refl, if◌then◌else◌, arith, Bool-cases, ℤ,
  pos, ok, Bytes,
}
use liblxi.Backends.{Library, Module}
use liblxi.Session.{
  Session, State, Protocol, sessions_max, lxi_error, update, backend_of, lxi_connect,
}
use liblxi.Session.Table.{FirstFree}
use liblxi.Session.Calls.{prepared, opened}
use liblxi.Session.Invariant.{Inv}
use liblxi.Session.Invariant.Changes.{open-Inv, quiet-Inv, next_not_live}
use liblxi.Session.Connect.{full, unsupported, no_memory, opens, fails, lxi_connect-Connects}

-- The protocol that an entry is open with.
abbrev pub seen : Option Session → Option Module
seen none = none
seen (some s) = if s.allocated then s.send else none

abbrev pub view : {D W : Type 0} → State D W → ℕ → Option Module
view st i = seen (get_elem? st.sessions i)

-- What a caller is promised: an error changes no handle, and success opens the lowest handle that
-- was not open, with the protocol that was asked for.
pub data ConnectSpec (before after : ℕ → Option Module) (protocol : Protocol) (z : ℤ) : Type 0 where
  refused : z ≡ lxi_error → ((j : ℕ) → after j ≡ before j) → ConnectSpec before after protocol z
  granted :
      (i : ℕ) (m : Module)
      → z ≡ pos i
      → i < sessions_max
      → backend_of protocol ≡ some m
      → before i ≡ none
      → ((j : ℕ) → j < i → before j ≢ none)
      → ((j : ℕ) → after j ≡ (if i == j then some m else before j))
      → ConnectSpec before after protocol z

module _ {D W : Type 0} (lib : Library D W) (st : State D W) (address : Bytes) (port : ℤ)
    (name : Option Bytes) (timeout : ℤ) (protocol : Protocol) (inv : Inv st) where
  -- The entry that an attempt works on, before and behind a write.
  view-free : {i : ℕ} (f : FirstFree st.sessions i) → view st i ≡ none
  view-free f = rw (f.is_there, f.is_free) refl

  view-busy : {i : ℕ} (f : FirstFree st.sessions i) (j : ℕ) → j < i → view st j ≢ none
  view-busy {i} f j lt e =
      let inside = get_elem?-lt st.sessions i f.is_there in
      let (s, there) = get_elem?-in st.sessions j (omega arith) in
      let o = inv.active j s there (f.busy_below j s lt there) in
      let sends : view st j ≡ some o.protocol = rw (there, f.busy_below j s lt there) o.has_send in
      cc

  view-set :
      {i : ℕ} (f : FirstFree st.sessions i) (v : Session) (j : ℕ)
      → seen (get_elem? (set st.sessions i v) j) ≡ (if i == j then seen (some v) else view st j)
  view-set {i} f v j =
      rw (get_elem?-set st.sessions i j v (get_elem?-lt st.sessions i f.is_there))
        (elim (Bool-cases (i == j)) [ inl a ↦ rw a refl | inr a ↦ rw a refl ])

  still_free :
      {i : ℕ} (f : FirstFree st.sessions i) (m : Module) (p : Option ℕ) (j : ℕ)
      → (if i == j then seen (some (prepared f.entry m p)) else view st j) ≡ view st j
  still_free {i} f m p j = elim (Bool-cases (i == j)) [
    | inl a ↦
        let ij : i ≡ j = ground arith in
        let there : get_elem? st.sessions j ≡ some f.entry = rw (← ij) f.is_there in
        rw (a, f.is_free, there, f.is_free) refl
    | inr a ↦ rw a refl
  ]

  -- Allocating the next block and freeing it again.
  heap_restored :
      (d d' : D) (q : ℕ)
      → update (update (update st.heap st.next (some d)) st.next (some d')) st.next none q
        ≡ st.heap q
  heap_restored d d' q = elim (Bool-cases (st.next == q)) [
    | inl same ↦
        let e : st.next ≡ q = ground arith in rw same (sym (next_not_live st inv) ∙ ap st.heap e)
    | inr other ↦ rw other refl
  ]

  -- When lxi_connect returns on a well-formed table, it keeps to the contract: with LXI_ERROR no handle
  -- has changed; otherwise the result is the lowest handle that was not open, that handle is now open
  -- with the protocol asked for, and no other handle has changed.
  pub lxi_connect-ConnectSpec :
      (z : ℤ) (st' : State D W)
      → lxi_connect lib st address port name timeout protocol ≡ ok (z, st')
      → ConnectSpec (view st) (view st') protocol z
  lxi_connect-ConnectSpec z st' h =
      elim (lxi_connect-Connects lib st address port name timeout protocol z st' h) [
        | full e ez es ↦ refused ez (λ j. rw es refl)
        | unsupported e ez es ↦ refused ez (λ j. rw es refl)
        | no_memory i a ez es ↦ refused ez λ j. rw es (
            view-set a.first (prepared a.first.entry a.module_used none) j
            ∙ still_free a.first a.module_used none j)
        | opens i a zero ez es ↦
            granted i a.module_used ez a.in_table a.supported (view-free a.first)
              (view-busy a.first) (λ j. rw es (view-set a.first _ j))
        | fails i a nonzero ez es ↦ refused ez λ j. rw es (
            view-set a.first (prepared a.first.entry a.module_used (some st.next)) j
            ∙ still_free a.first a.module_used (some st.next) j)
      ]

  -- lxi_connect leaves a well-formed table well formed.
  pub lxi_connect-Inv :
      (z : ℤ) (st' : State D W)
      → lxi_connect lib st address port name timeout protocol ≡ ok (z, st')
      → Inv st'
  lxi_connect-Inv z st' h =
      elim (lxi_connect-Connects lib st address port name timeout protocol z st' h) [
        | full e ez es ↦ subst Inv (sym es) inv
        | unsupported e ez es ↦ subst Inv (sym es) inv
        | no_memory i a ez es ↦ subst Inv (sym es) (
            quiet-Inv st inv i a.first.entry a.first.is_there _ st.heap st.next a.world2
              a.first.is_free a.first.is_free (λ q. refl) (omega arith))
        | opens i a zero ez es ↦ subst Inv (sym es) (
            open-Inv st inv i a.first.entry a.first.is_there
              (opened a.first.entry a.module_used st.next) _ a.world2 a.first.is_free refl
              (record {
                protocol = a.module_used;
                pointer = st.next;
                contents = a.contents';
                is_connected = refl;
                has_connect = refl;
                has_disconnect = refl;
                has_send = refl;
                has_receive = refl;
                has_block = refl;
                is_live = rw (==_refl st.next) refl;
              })
              refl (λ q other. rw other refl))
        | fails i a nonzero ez es ↦ subst Inv (sym es) (
            quiet-Inv st inv i a.first.entry a.first.is_there _ _ (suc st.next) a.world2
              a.first.is_free a.first.is_free (heap_restored a.contents a.contents') (omega arith))
      ]

  -- When lxi_connect returns LXI_ERROR, every block of memory is as it was: nothing that it
  -- allocated is left. The table is well formed.
  pub lxi_connect_frees :
      (st' : State D W)
      → lxi_connect lib st address port name timeout protocol ≡ ok (lxi_error, st')
      → (q : ℕ) → st'.heap q ≡ st.heap q
  lxi_connect_frees st' h q =
      elim (lxi_connect-Connects lib st address port name timeout protocol lxi_error st' h) [
        | full e ez es ↦ rw es refl
        | unsupported e ez es ↦ rw es refl
        | no_memory i a ez es ↦ rw es refl
        | opens i a zero ez es ↦ absurd (cc)
        | fails i a nonzero ez es ↦ rw es (heap_restored a.contents a.contents' q)
      ]
