-- ===== src/Avahi/Browsers.antt =====
-- The table of browsers of src/avahi.c: its entries and the browsers that are held.
use liblxi.Base.{
  ℕ, zero, suc, ◌+◌, ◌≤◌, ◌<◌, ◌≡◌, refl, ◌∙◌, ◌≢◌, ◌⊎◌, inl, inr, true, false, Option, none, some,
  List, [], ◌∷◌, ℤ, pos, minus_one, lt→ltb, length, get_elem?, set, length-set, get_elem?-set_self,
  get_elem?-set_ne, Option-cases, ok, Bytes, arith,
}
use liblxi.Discovery.{Info}
use liblxi.Avahi.{
  AvahiLib, Statics, ClientState, BrowserEvent, Service, store_browser, avahi_browse_callback,
  create_service_browser, create_browsers, free_browsers,
}

-- What avahi_discover() has the library make.
pub data Handle : Type 0 where
  a_poll a_client a_browser : ℕ → Handle

-- The objects that are held, the newest first. Only the calls that make and free them change them.
pub record HandleLaw {W : Type 0} (lib : AvahiLib W) : Type 0 where
  pub held : W → List Handle
  pub poll_made :
      (w w' : W) (p : ℕ) → lib.simple_poll_new w ≡ (some p, w') → held w' ≡ a_poll p ∷ held w
  pub poll_fails : (w w' : W) → lib.simple_poll_new w ≡ (none, w') → held w' ≡ held w
  pub poll_freed :
      (p : ℕ) (w : W) (l : List Handle)
      → held w ≡ a_poll p ∷ l
      → held (lib.simple_poll_free p w) ≡ l
  pub client_made :
      (p : ℕ) (callback : ClientState → W → W) (w w' : W) (c : ℕ)
      → lib.client_new p callback w ≡ (some c, w')
      → held w' ≡ a_client c ∷ held w
  pub client_fails :
      (p : ℕ) (callback : ClientState → W → W) (w w' : W)
      → lib.client_new p callback w ≡ (none, w')
      → held w' ≡ held w
  pub client_freed :
      (c : ℕ) (w : W) (l : List Handle) → held w ≡ a_client c ∷ l → held (lib.client_free c w) ≡ l
  pub browser_made :
      (c : ℕ) (service : Bytes) (callback : BrowserEvent → Service → W → W) (w w' : W) (b : ℕ)
      → lib.service_browser_new c service callback w ≡ (some b, w')
      → held w' ≡ a_browser b ∷ held w
  pub browser_freed :
      (b : ℕ) (w : W) (l : List Handle)
      → held w ≡ a_browser b ∷ l
      → held (lib.service_browser_free b w) ≡ l
  pub timeout_keeps :
      (api : ℕ) (timeout : ℤ) (callback : W → W) (w : W)
      → held (lib.timeout_new api timeout callback w) ≡ held w
  pub loop_keeps : (p : ℕ) (w : W) → held (lib.simple_poll_loop p w) ≡ held w

-- The first `n` entries of the table are the newest browsers, the last one first, and the others
-- that are held are `base`.
abbrev pub Stacked : List (Option ℕ) → ℕ → List Handle → List Handle → Type 0
Stacked sb zero hs base = hs ≡ base
Stacked sb (suc n) hs base =
    (b : ℕ) × (rest : List Handle) × (get_elem? sb n ≡ some (some b))
    × (hs ≡ a_browser b ∷ rest)
    × Stacked sb n rest base

Stacked-set :
    (sb : List (Option ℕ)) (n i : ℕ) (v : Option ℕ) (hs base : List Handle)
    → n ≤ i
    → Stacked sb n hs base
    → Stacked (set sb i v) n hs base
Stacked-set sb zero i v hs base h s = s
Stacked-set sb (suc n) i v hs base h (b, rest, e, eq, s) =
    let ne : i ≢ n = λ (same : i ≡ n). absurd (omega (arith, same)) in
    (b, rest, get_elem?-set_ne sb i n v ne ∙ e, eq, Stacked-set sb n i v rest base (omega arith) s)

module _ {W : Type 0} (lib : AvahiLib W) (info : Info W) (law : HandleLaw lib) where
  -- The library does not create some browser for this client.
  abbrev pub Failing : ℕ → ℕ → Type 0
  Failing poll client =
      (name : Bytes) × (w : W) × ((lib.service_browser_new client name
          (avahi_browse_callback lib info poll client) w).0
        ≡ none)

  -- Storing a browser, and the status of the call that creates it.
  store_lem :
      (poll client n : ℕ) (service : Bytes) (st : Statics) (w w1 : W) (made : Option ℕ)
      → st.count ≡ pos n
      → n < length st.sb
      → lib.service_browser_new client service (avahi_browse_callback lib info poll client) w
        ≡ (made, w1)
      → create_service_browser lib info poll client service st w
        ≡ ok (
          elim made [ none ↦ 1 | some b ↦ 0 ],
          record { sb = set st.sb n made; count = pos (suc n) },
          w1,
        )
  unfolding create_service_browser store_browser
  store_lem poll client n service st w w1 made counted h e =
      rw (e, counted, lt→ltb n (length st.sb) h) refl

  -- Freeing the browsers of the table gives back what was held before them.
  pub free_browsers-Stacked :
      (n : ℕ) (st : Statics) (w : W) (base : List Handle)
      → Stacked st.sb n (law.held w) base
      → (w' : W) × (free_browsers lib info n st w ≡ ok (record st { count = minus_one }, w'))
        × (law.held w' ≡ base)
  unfolding free_browsers
  free_browsers-Stacked zero st w base s = (w, refl, s)
  free_browsers-Stacked (suc n) st w base (b, rest, e, eq, s) =
      let freed = law.browser_freed b w rest eq in
      let (w', e', k) =
        free_browsers-Stacked n st (lib.service_browser_free b w) base (rw (← freed) at s) in
      (w', rw e e', k)

  -- Creating browsers, from a count of `n`: all are created and stacked, or one is not and stands
  -- in the table as the last entry.
  pub create_browsers-Stacked :
      (poll client : ℕ) (names : List Bytes) (n : ℕ) (st : Statics) (w : W) (base : List Handle)
      → st.count ≡ pos n
      → n + length names ≤ length st.sb
      → Stacked st.sb n (law.held w) base
      → ((st' : Statics) × (w' : W) × (create_browsers lib info poll client names st w
            ≡ ok (true, st', w'))
          × (st'.count ≡ pos (n + length names))
          × Stacked st'.sb (n + length names) (law.held w') base)
        ⊎ ((st' : Statics) × (w' : W) × (k : ℕ) × (create_browsers lib info poll client names st w
              ≡ ok (false, st', w'))
            × (st'.count ≡ pos (suc k))
            × (get_elem? st'.sb k ≡ some none)
            × Failing poll client)
  unfolding create_browsers
  create_browsers-Stacked poll client [] n st w base counted h s =
      let e : n + 0 ≡ n = omega arith in inl (st, w, refl, rw e counted, rw e s)
  create_browsers-Stacked poll client (name ∷ names) n st w base counted h s =
      let made : Option ℕ × W =
        lib.service_browser_new client name (avahi_browse_callback lib info poll client) w in
      let room : n < length st.sb = omega (arith, h) in
      elim (Option-cases made.0) [
        | inl none_made ↦
            let pair : made ≡ (none, made.1) = rw none_made refl in
            let step = store_lem poll client n name st w made.1 none counted room pair in
            inr (
              record { sb = set st.sb n none; count = pos (suc n) },
              made.1,
              n,
              rw step refl,
              refl,
              get_elem?-set_self st.sb n none room,
              (name, w, none_made),
            )
        | inr (b, one_made) ↦
            let st1 : Statics = record { sb = set st.sb n (some b); count = pos (suc n) } in
            let pair : made ≡ (some b, made.1) = rw one_made refl in
            let step = store_lem poll client n name st w made.1 (some b) counted room pair in
            let e : n + suc (length names) ≡ suc n + length names = omega arith in
            let stacked : Stacked st1.sb (suc n) (law.held made.1) base = (
              b,
              law.held w,
              get_elem?-set_self st.sb n (some b) room,
              law.browser_made client name _ w made.1 b pair,
              Stacked-set st.sb n n (some b) (law.held w) base (omega arith) s,
            ) in
            let fits : suc n + length names ≤ length st1.sb =
              rw (length-set st.sb n (some b)) (omega (arith, h)) in
            elim (create_browsers-Stacked poll client names (suc n) st1 made.1 base refl fits
              stacked) [
                | inl (st', w', run, c, k) ↦ inl (st', w', rw step run, rw e c, rw e k)
                | inr (st', w', k, run, c, last, failing) ↦
                    inr (st', w', k, rw step run, c, last, failing)
              ]
      ]
