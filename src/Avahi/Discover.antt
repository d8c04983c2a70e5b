-- ===== src/Avahi/Discover.antt =====
-- avahi_discover of src/avahi.c: what it frees, and what it leaves for the next call.
use liblxi.Base.{
  ℕ, suc, ◌+◌, ◌≤◌, ◌≡◌, refl, sym, ap, ◌∙◌, ◌⊎◌, inl, inr, Option, none, some, List, ◌∷◌, ℤ, pos,
  minus_one, length, get_elem?, ok, fault, bounds, null, Option-cases, ok-injective, ok-ne-fault,
  arith,
}
use liblxi.Discovery.{Info}
use liblxi.Avahi.{
  AvahiLib, Statics, services, store_browser, avahi_client_callback, avahi_terminate,
  create_service_browser, create_browsers, free_browsers, release, browse, avahi_discover,
}
use liblxi.Avahi.Browsers.{
  Handle, a_poll, a_client, HandleLaw, Stacked, Failing, free_browsers-Stacked,
  create_browsers-Stacked,
}

module _ {W : Type 0} (lib : AvahiLib W) (info : Info W) (law : HandleLaw lib) where
  release_lem :
      (p c n : ℕ) (status : ℤ) (st st1 : Statics) (w w1 : W)
      → st.count ≡ pos n
      → free_browsers lib info n st w ≡ ok (st1, w1)
      → release lib info p c status st w
        ≡ ok (status, st1, lib.simple_poll_free p (lib.client_free c w1))
  unfolding release
  release_lem p c n status st st1 w w1 counted run = rw (counted, run) refl

  release-Stacked :
      (p c : ℕ) (status : ℤ) (n : ℕ) (st : Statics) (w : W) (l : List Handle)
      → st.count ≡ pos n
      → Stacked st.sb n (law.held w) (a_client c ∷ (a_poll p ∷ l))
      → (w' : W) × (release lib info p c status st w
          ≡ ok (status, record st { count = minus_one }, w'))
        × (law.held w' ≡ l)
  release-Stacked p c status n st w l counted s =
      let (w1, run, k) =
        free_browsers-Stacked lib info law n st w (a_client c ∷ (a_poll p ∷ l)) s in
      let freed = law.client_freed c w1 (a_poll p ∷ l) k in
      (
        lib.simple_poll_free p (lib.client_free c w1),
        release_lem p c n status st _ w w1 counted run,
        law.poll_freed p (lib.client_free c w1) l freed,
      )

  release-null :
      (p c k : ℕ) (status : ℤ) (st : Statics) (w : W)
      → st.count ≡ pos (suc k)
      → get_elem? st.sb k ≡ some none
      → release lib info p c status st w ≡ fault null
  unfolding release free_browsers
  release-null p c k status st w counted last = rw (counted, last) refl

  browse-Stacked :
      (p api c : ℕ) (timeout : ℤ) (st : Statics) (w : W) (l : List Handle)
      → st.count ≡ pos 0
      → length st.sb ≡ 10
      → law.held w ≡ a_client c ∷ (a_poll p ∷ l)
      → ((st' : Statics) × (w' : W) × (browse lib info p api c timeout st w ≡ ok (pos 0, st', w'))
          × (st'.count ≡ minus_one)
          × (law.held w' ≡ l))
        ⊎ ((browse lib info p api c timeout st w ≡ fault null) × Failing lib info law p c)
  unfolding browse
  browse-Stacked p api c timeout st w l counted size h =
      let room : 0 + length services ≤ length st.sb = rw size (omega arith) in
      elim (create_browsers-Stacked lib info law p c services 0 st w _ counted room h) [
        | inl (st1, w1, made, c1, s) ↦
            let w2 : W = lib.timeout_new api timeout (avahi_terminate lib info p) w1 in
            let same : law.held (lib.simple_poll_loop p w2) ≡ law.held w1 =
              law.loop_keeps p w2 ∙ law.timeout_keeps api timeout _ w1 in
            let (w', run, k) =
              release-Stacked p c (pos 0) 5 st1 (lib.simple_poll_loop p w2) l c1
                (rw (← same) at s) in
            inl (record st1 { count = minus_one }, w', rw (made, run) refl, refl, k)
        | inr (st1, w1, k, made, c1, last, failing) ↦
            inr (rw (made, release-null p c k (pos 1) st1 w1 c1 last) refl, failing)
      ]

  discover-browse :
      (timeout : ℤ) (st : Statics) (w w1 w2 : W) (p api c : ℕ)
      → lib.simple_poll_new w ≡ (some p, w1)
      → lib.simple_poll_get p ≡ some api
      → lib.client_new p (avahi_client_callback lib info p) w1 ≡ (some c, w2)
      → avahi_discover lib info timeout st w ≡ browse lib info p api c timeout st w2
  unfolding avahi_discover
  discover-browse timeout st w w1 w2 p api c e1 e2 e3 =
      rw (e1, avahi_discover, e2, e1, e3, e1, e3) refl

  -- From a fresh table of browsers, avahi_discover either frees all it made, where it leaves the
  -- count at -1 if it returns 0 and the table as it was if not; or the library did not create some
  -- browser, whose NULL is then freed.
  pub avahi_discover_frees :
      (timeout : ℤ) (st : Statics) (w : W)
      → st.count ≡ pos 0
      → length st.sb ≡ 10
      → ((status : ℤ) × (st' : Statics) × (w' : W) × (avahi_discover lib info timeout st w
            ≡ ok (status, st', w'))
          × (law.held w' ≡ law.held w)
          × (((status ≡ pos 0) × (st'.count ≡ minus_one)) ⊎ ((status ≡ pos 1) × (st' ≡ st))))
        ⊎ ((avahi_discover lib info timeout st w ≡ fault null)
            × (p : ℕ) × (c : ℕ) × Failing lib info law p c)
  unfolding avahi_discover
  avahi_discover_frees timeout st w counted size = elim (Option-cases (lib.simple_poll_new w).0) [
    | inl no_poll ↦
        let w1 : W = (lib.simple_poll_new w).1 in
        let pair : lib.simple_poll_new w ≡ (none, w1) = rw no_poll refl in
        inl (
          pos 1,
          st,
          w1,
          rw (pair, avahi_discover, pair) refl,
          law.poll_fails w w1 pair,
          inr (refl, refl),
        )
    | inr (p, some_poll) ↦
        let w1 : W = (lib.simple_poll_new w).1 in
        let pair : lib.simple_poll_new w ≡ (some p, w1) = rw some_poll refl in
        let h1 : law.held w1 ≡ a_poll p ∷ law.held w = law.poll_made w w1 p pair in
        elim (Option-cases (lib.simple_poll_get p)) [
          | inl no_api ↦ inl (
            pos 1,
            st,
            lib.simple_poll_free p w1,
            rw (pair, avahi_discover, pair, no_api) refl,
            law.poll_freed p w1 (law.held w) h1,
            inr (refl, refl),
          )
          | inr (api, some_api) ↦
              let made : Option ℕ × W = lib.client_new p (avahi_client_callback lib info p) w1 in
              elim (Option-cases made.0) [
                | inl no_client ↦
                    let pair2 : made ≡ (none, made.1) = rw no_client refl in
                    inl (
                      pos 1,
                      st,
                      lib.simple_poll_free p made.1,
                      rw (pair, avahi_discover, some_api, pair, pair2) refl,
                      law.poll_freed p made.1 (law.held w)
                          (law.client_fails p _ w1 made.1 pair2 ∙ h1),
                      inr (refl, refl),
                    )
                | inr (c, some_client) ↦
                    let pair2 : made ≡ (some c, made.1) = rw some_client refl in
                    let h2 : law.held made.1 ≡ a_client c ∷ (a_poll p ∷ law.held w) =
                      law.client_made p _ w1 made.1 c pair2 ∙ ap (◌∷◌ (a_client c)) h1 in
                    elim (browse-Stacked p api c timeout st made.1 (law.held w) counted size h2) [
                      | inl (st', w', run, left, k) ↦ inl (
                        pos 0,
                        st',
                        w',
                        discover-browse timeout st w w1 made.1 p api c pair some_api pair2 ∙ run,
                        k,
                        inl (refl, left),
                      )
                      | inr (run, failing) ↦ inr (
                        discover-browse timeout st w w1 made.1 p api c pair some_api pair2 ∙ run,
                        p,
                        c,
                        failing,
                      )
                    ]
              ]
        ]
  ]

  -- The browsing of a call with a count below 0 writes in front of the table.
  browse_below :
      (p api c : ℕ) (timeout : ℤ) (st : Statics) (w : W)
      → st.count ≡ minus_one
      → browse lib info p api c timeout st w ≡ fault bounds
  unfolding browse create_browsers create_service_browser store_browser
  browse_below p api c timeout st w below = rw below refl

  -- Behind a call of avahi_discover on a fresh table that returns 0, a second call for which a poll,
  -- its API and a client are made writes in front of the table.
  pub avahi_discover_again :
      (timeout timeout2 : ℤ) (st st' : Statics) (w w' v v1 v2 : W) (p api c : ℕ)
      → st.count ≡ pos 0
      → length st.sb ≡ 10
      → avahi_discover lib info timeout st w ≡ ok (pos 0, st', w')
      → lib.simple_poll_new v ≡ (some p, v1)
      → lib.simple_poll_get p ≡ some api
      → lib.client_new p (avahi_client_callback lib info p) v1 ≡ (some c, v2)
      → avahi_discover lib info timeout2 st' v ≡ fault bounds
  avahi_discover_again timeout timeout2 st st' w w' v v1 v2 p api c counted size first e1 e2 e3 =
      let below : st'.count ≡ minus_one = elim (avahi_discover_frees timeout st w counted size) [
        | inl (status, st1, w1, run, same, inl (zeroed, left)) ↦
            let one : ok (pos 0, st', w') ≡ ok (status, st1, w1) = sym first ∙ run in
            ap (λ (r : ℤ × Statics × W). r.1.count) (ok-injective one) ∙ left
        | inl (status, st1, w1, run, same, inr (one, kept)) ↦
            let both : ok (pos 0, st', w') ≡ ok (status, st1, w1) = sym first ∙ run in
            let clash : pos 0 ≡ pos 1 =
              ap (λ (r : ℤ × Statics × W). r.0) (ok-injective both) ∙ one in
            absurd (cc)
        | inr (run, p1, c1, failing) ↦ absurd (ok-ne-fault first run)
      ] in
      discover-browse timeout2 st' v v1 v2 p api c e1 e2 e3
      ∙ browse_below p api c timeout2 st' v2 below
