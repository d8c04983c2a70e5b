-- ===== src/Examples/Browsing.antt =====
-- The theorems on src/avahi.c and on lxi_discover of src/lxi.c, with a library that numbers what it
-- makes.
use liblxi.Base.{
  ℕ, ◌≡◌, refl, sym, ap, ◌∙◌, ◌⊎◌, Option, none, some, List, [], ◌∷◌, replicate, drop, ℤ, pos,
  minus_one, ok, fault, bounds, null,
}
use liblxi.Discovery.{Info}
use liblxi.Avahi.{
  AvahiLib, Statics, store_browser, create_service_browser, create_browsers, free_browsers, release,
  browse, avahi_discover,
}
use liblxi.Avahi.Browsers.{Handle, a_poll, a_client, a_browser, HandleLaw, Failing}
use liblxi.Avahi.Discover.{avahi_discover_frees, avahi_discover_again}

-- The world is what is held. Handles are all 1.
abbrev making : Handle → List Handle → Option ℕ × List Handle
making h w = (some 1, h ∷ w)

abbrev avahi : AvahiLib (List Handle)
avahi = record {
  simple_poll_new = making (a_poll 1);
  simple_poll_get = λ p. some p;
  simple_poll_quit = λ p w. w;
  simple_poll_loop = λ p w. w;
  simple_poll_free = λ p w. drop 1 w;
  client_new = λ p callback w. making (a_client 1) w;
  client_free = λ c w. drop 1 w;
  service_browser_new = λ c service callback w. making (a_browser 1) w;
  service_browser_free = λ b w. drop 1 w;
  service_resolver_new = λ c service callback w. (some 1, w);
  service_resolver_free = λ r w. w;
  timeout_new = λ api timeout callback w. w;
}

made_one :
    (h : ℕ → Handle) (w w' : List Handle) (n : ℕ) → making (h 1) w ≡ (some n, w') → w' ≡ h n ∷ w
made_one h w w' n e =
    let one : some 1 ≡ some n = ap (λ (p : Option ℕ × List Handle). p.0) e in
    let same : 1 ≡ n = cc in
    ap (λ (p : Option ℕ × List Handle). p.1) (sym e) ∙ ap (λ (k : ℕ). h k ∷ w) same

made_none : (h : Handle) (w w' : List Handle) → making h w ≡ (none, w') → w' ≡ w
made_none h w w' e =
    let clash : some 1 ≡ none = ap (λ (p : Option ℕ × List Handle). p.0) e in absurd (cc)

avahi-HandleLaw : HandleLaw avahi
avahi-HandleLaw = record {
  held = λ w. w;
  poll_made = λ w w' p e. made_one a_poll w w' p e;
  poll_fails = λ w w' e. made_none (a_poll 1) w w' e;
  poll_freed = λ p w l e. ap (drop 1) e;
  client_made = λ p callback w w' c e. made_one a_client w w' c e;
  client_fails = λ p callback w w' e. made_none (a_client 1) w w' e;
  client_freed = λ c w l e. ap (drop 1) e;
  browser_made = λ c service callback w w' b e. made_one a_browser w w' b e;
  browser_freed = λ b w l e. ap (drop 1) e;
  timeout_keeps = λ api timeout callback w. refl;
  loop_keeps = λ p w. refl;
}

abbrev nobody : Info (List Handle)
nobody = record { broadcast = none; device = none; service = none }

abbrev fresh : Statics
fresh = record { sb = replicate 10 none; count = pos 0 }

abbrev used : Statics
used = record {
  sb = some 1 ∷ some 1 ∷ some 1 ∷ some 1 ∷ some 1 ∷ none ∷ none ∷ none ∷ none ∷ none ∷ [];
  count = minus_one;
}

avahi_discover_frees_example :
    ((status : ℤ) × (st' : Statics) × (w' : List Handle) × (avahi_discover avahi nobody
          (pos 1000)
          fresh
          []
        ≡ ok (status, st', w'))
      × (w' ≡ [])
      × (((status ≡ pos 0) × (st'.count ≡ minus_one)) ⊎ ((status ≡ pos 1) × (st' ≡ fresh))))
    ⊎ ((avahi_discover avahi nobody (pos 1000) fresh [] ≡ fault null)
        × (p : ℕ) × (c : ℕ) × Failing avahi nobody avahi-HandleLaw p c)
unfolding avahi-HandleLaw
avahi_discover_frees_example =
    avahi_discover_frees avahi nobody avahi-HandleLaw (pos 1000) fresh [] refl refl

first_call : avahi_discover avahi nobody (pos 1000) fresh [] ≡ ok (pos 0, used, [])
unfolding avahi_discover browse create_browsers create_service_browser store_browser release
    free_browsers
first_call = refl

avahi_discover_again_example : avahi_discover avahi nobody (pos 1000) used [] ≡ fault bounds
avahi_discover_again_example =
    avahi_discover_again avahi nobody avahi-HandleLaw (pos 1000) (pos 1000) fresh used [] [] []
      (a_poll 1 ∷ []) (a_client 1 ∷ a_poll 1 ∷ []) 1 1 1 refl refl first_call refl refl refl
