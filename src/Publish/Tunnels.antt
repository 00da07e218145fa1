-- ===== src/Publish/Tunnels.antt =====
-- modemproxy/services/publish.py: in relay mode the ports that customers are given have tunnels.
use modemproxy.Prelude.{
  ℕ, String, ◌≡◌, refl, Bool, true, false, ◌&&◌, ◌||◌, List, [], ◌∷◌, ◌++◌, Option, none, some,
  arith, ◌==◌, eqb, All, All-map_imp, or_text, Option-cases, inl, inr,
}
use modemproxy.Text.{last_chars}
use modemproxy.Config.{Config}
use modemproxy.Db.Rows.{Store}
use modemproxy.Db.Listing.{Listed}
use modemproxy.Publish.{
  Tunnel, live, customer_port, port_of, tunnel, tunnels_of, tunnels, render_frpc,
}

unfoldable pub has_tunnel : ℕ → ℕ → List Tunnel → Bool
has_tunnel local remote [] = false
has_tunnel local remote (t ∷ ts) =
    (eqb t.local_port local && eqb t.remote_port remote) || has_tunnel local remote ts

-- The port that a customer dials for a local port leads back to it.
unfoldable pub covers : Config → List Tunnel → Option ℕ → Bool
covers cfg ts none = true
covers cfg ts (some p) = elim (customer_port cfg (some p)) [
  | none ↦ true
  | some q ↦ has_tunnel p q ts
]

abbrev pub Covered : Config → List Tunnel → Listed → Type 0
Covered cfg ts r =
    (covers cfg ts (port_of (λ p. p.http_port) r) ≡ true)
    × (covers cfg ts (port_of (λ p. p.socks_port) r) ≡ true)

has_tunnel-append :
    (l q : ℕ) (xs ys : List Tunnel)
    → has_tunnel l q (xs ++ ys) ≡ (has_tunnel l q xs || has_tunnel l q ys)
unfolding has_tunnel
has_tunnel-append l q [] ys = refl
has_tunnel-append l q (x ∷ xs) ys = ground (arith, has_tunnel-append l q xs ys)

covers_more :
    (cfg : Config) (xs ys : List Tunnel) (o : Option ℕ)
    → (covers cfg xs o || covers cfg ys o) ≡ true
    → covers cfg (xs ++ ys) o ≡ true
unfolding covers
covers_more cfg xs ys none h = refl
covers_more cfg xs ys (some p) h = elim (Option-cases (customer_port cfg (some p))) [
  | inl e ↦ ground (arith, e)
  | inr (q, e) ↦ ground (arith, e, has_tunnel-append p q xs ys)
]

covers_own :
    (cfg : Config) (name kind : String) (o : Option ℕ)
    → cfg.access_mode == "relay" ≡ true
    → covers cfg (tunnel cfg name kind o) o ≡ true
unfolding covers customer_port tunnel has_tunnel
covers_own cfg name kind none relay = refl
covers_own cfg name kind (some p) relay = ground arith

module _ (cfg : Config) (relay : cfg.access_mode == "relay" ≡ true) where
  Covered-self : (r : Listed) (rest : List Tunnel) → Covered cfg (tunnels_of cfg r ++ rest) r
  unfolding tunnels_of
  Covered-self r rest =
      let name = or_text r.modem.name (last_chars 6 r.modem.imei) in
      let http = port_of (λ p. p.http_port) r in
      let socks = port_of (λ p. p.socks_port) r in
      let a = covers_own cfg name "http" http relay in
      let b = covers_own cfg name "socks" socks relay in
      let both = tunnel cfg name "http" http ++ tunnel cfg name "socks" socks in
      (
        covers_more cfg both rest http (
            ground (
              arith,
              covers_more cfg (tunnel cfg name "http" http) (tunnel cfg name "socks" socks) http,
              a,
            )),
        covers_more cfg both rest socks (
            ground (
              arith,
              covers_more cfg (tunnel cfg name "http" http) (tunnel cfg name "socks" socks) socks,
              b,
            )),
      )

  Covered-later : (xs ts : List Tunnel) (r : Listed) → Covered cfg ts r → Covered cfg (xs ++ ts) r
  Covered-later xs ts r h = (
    covers_more cfg xs ts (port_of (λ p. p.http_port) r) (ground arith),
    covers_more cfg xs ts (port_of (λ p. p.socks_port) r) (ground arith),
  )

  Covered-All : (rs : List Listed) → All (Covered cfg (tunnels cfg rs)) rs
  unfolding tunnels
  Covered-All [] = tt
  Covered-All (r ∷ rs) = (
    Covered-self r (tunnels cfg rs),
    All-map_imp (Covered cfg (tunnels cfg rs)) (Covered cfg (tunnels_of cfg r ++ tunnels cfg rs))
        (Covered-later (tunnels_of cfg r) (tunnels cfg rs)) rs (Covered-All rs),
  )

-- In relay mode, each port that a customer is given for a published modem has a tunnel in frpc.toml
-- that leads to the modem's own port.
pub render_frpc-Covered :
    (cfg : Config) (s : Store)
    → cfg.access_mode == "relay" ≡ true
    → All (Covered cfg (render_frpc cfg s).proxies) (live s)
unfolding render_frpc
render_frpc-Covered cfg s relay = Covered-All cfg relay (live s)
