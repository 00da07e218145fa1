-- ===== src/Web/Pool/Sticky.antt =====
-- A session key of the API's pool keeps its modem.
use modemproxy.Prelude.{
  ℕ, ◌+◌, ◌≤◌, max, ◌≡◌, sym, ap, ◌∙◌, String, List, [], ◌∷◌, Option, some, arith, inl, inr,
  Option-cases, str_refl, eq_iff,
}
use modemproxy.Result.{ok, Result-cases}
use modemproxy.Db.Rows.{Store, Modem, Session}
use modemproxy.Db.Modems.{get_modem}
use modemproxy.Db.Sticky.{sticky_get, sticky_set, find_session, find_session-sticky_set, is_stale}
use modemproxy.Web.Pool.{
  LiveProxy, api_pool, api_pool_sticky, stick_to, store_session, by_imei, required, unavailable,
  stick,
}

pub by_imei_lem :
    (imei : String) (ps : List LiveProxy) (q : LiveProxy) → by_imei imei ps ≡ some q → q.imei ≡ imei
unfolding by_imei
by_imei_lem imei [] q h = absurd (cc h)
by_imei_lem imei (p ∷ ps) q h = elim (Option-cases (by_imei imei ps)) [
  | inl e ↦ ground (arith, e, h, eq_iff p.imei imei)
  | inr (r, e) ↦ by_imei_lem imei ps q (ground (arith, e, h))
]

abbrev session : String → String → ℕ → Session
session key imei expires_at = record { key = key; imei = imei; expires_at = expires_at }

-- An answer that is a proxy has its modem stored for the key.
stored :
    (key imei : String) (ttl now : ℕ) (ps : List LiveProxy) (s : Store) (p : LiveProxy)
    → (store_session key imei ttl now ps s).0 ≡ ok p
    → (p.imei ≡ imei)
      × (find_session key (store_session key imei ttl now ps s).1
          ≡ some (session key imei (now + ttl)))
unfolding store_session required
stored key imei ttl now ps s p h = elim (Result-cases (sticky_set key imei ttl now s)) [
  | inr (e, f) ↦ absurd (ground (arith, f, h))
  | inl (t, f) ↦ elim (Option-cases (by_imei imei ps)) [
    | inl n ↦ absurd (ground (arith, f, n, h))
    | inr (q, found) ↦ (
      ground (arith, f, found, h, by_imei_lem imei ps q found),
      ground (arith, f, find_session-sticky_set key key imei ttl now s t f, str_refl key),
    )
  ]
]

first_call :
    (draw : ℕ) (key : String) (ttl now : ℕ) (s : Store) (p : LiveProxy) (proxies : List LiveProxy)
    → (stick draw key ttl now s proxies).0 ≡ ok p
    → find_session key (stick draw key ttl now s proxies).1
      ≡ some (session key p.imei (now + max 1 ttl))
unfolding stick unavailable
first_call draw key ttl now s p [] h = absurd (cc h)
first_call draw key ttl now s p (x ∷ xs) h =
    let (same, kept) =
      stored key (stick_to draw (sticky_get key now s).0 x xs) (max 1 ttl) now (x ∷ xs)
        (sticky_get key now s).1 p h in
    kept ∙ ap (λ i. some (session key i (now + max 1 ttl))) (sym same)

-- sticky_get while the session lasts.
lasting :
    (key imei : String) (until now : ℕ) (s : Store)
    → find_session key s ≡ some (session key imei until)
    → now ≤ until
    → sticky_get key now s ≡ (some imei, s)
unfolding sticky_get is_stale
lasting key imei until now s h t = ground (arith, h, t)

keeps :
    (draw : ℕ) (imei : String) (x : LiveProxy) (xs : List LiveProxy) (q : LiveProxy)
    → by_imei imei (x ∷ xs) ≡ some q
    → stick_to draw (some imei) x xs ≡ imei
unfolding stick_to
keeps draw imei x xs q h = ground (arith, h)

sticky_set_goes :
    (key imei : String) (ttl now : ℕ) (s : Store) (m : Modem)
    → get_modem imei s ≡ some m
    → (t : Store) × (sticky_set key imei ttl now s ≡ ok t)
unfolding sticky_set
sticky_set_goes key imei ttl now s m h = elim (Result-cases (sticky_set key imei ttl now s)) [
  | inl (t, e) ↦ (t, e)
  | inr (x, e) ↦ absurd (ground (arith, h, e, Option-cases (find_session key s)))
]

store_answer :
    (key imei : String) (ttl now : ℕ) (ps : List LiveProxy) (s t : Store) (q : LiveProxy)
    → sticky_set key imei ttl now s ≡ ok t
    → by_imei imei ps ≡ some q
    → (store_session key imei ttl now ps s).0 ≡ ok q
unfolding store_session required
store_answer key imei ttl now ps s t q e found = ground (arith, e, found)

later_call :
    (draw : ℕ) (key imei : String) (ttl until now : ℕ) (s : Store) (m : Modem) (q : LiveProxy)
    (proxies : List LiveProxy)
    → find_session key s ≡ some (session key imei until)
    → now ≤ until
    → get_modem imei s ≡ some m
    → by_imei imei proxies ≡ some q
    → (stick draw key ttl now s proxies).0 ≡ ok q
unfolding stick
later_call draw key imei ttl until now s m q [] h t there found = absurd (ground (arith, found))
later_call draw key imei ttl until now s m q (x ∷ xs) h t there found =
    let (u, e) = sticky_set_goes key imei (max 1 ttl) now s m there in
    rw (lasting key imei until now s h t, keeps draw imei x xs q found)
      (store_answer key imei (max 1 ttl) now (x ∷ xs) s u q e found)

-- A client that was given a proxy for its session key is given the same modem again, whatever is
-- drawn and whatever time to live it asks for, as long as the first time to live has not passed, the
-- modem is among the proxies of the new request, and the session's row is as the first call left it;
-- everything else may have changed in between.
pub api_pool_sticky-api_pool_sticky :
    (draw draw' : ℕ) (key host host' : String) (ttl ttl' : ℕ) (operator operator' : Option String)
    (now later : ℕ) (s u : Store) (p q : LiveProxy) (m : Modem)
    → (api_pool_sticky draw key host ttl operator now s).0 ≡ ok p
    → find_session key u ≡ find_session key (api_pool_sticky draw key host ttl operator now s).1
    → later ≤ now + max 1 ttl
    → get_modem p.imei u ≡ some m
    → by_imei p.imei (api_pool host' operator' later u) ≡ some q
    → ((api_pool_sticky draw' key host' ttl' operator' later u).0 ≡ ok q) × (q.imei ≡ p.imei)
unfolding api_pool_sticky
api_pool_sticky-api_pool_sticky draw draw' key host host' ttl ttl' operator operator' now later s u
      p q m h same t there found =
    (
      later_call draw' key p.imei ttl' (now + max 1 ttl) later u m q
          (api_pool host' operator' later u)
          (same ∙ first_call draw key ttl now s p (api_pool host operator now s) h) t there found,
      by_imei_lem p.imei (api_pool host' operator' later u) q found,
    )
