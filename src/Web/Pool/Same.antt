-- ===== src/Web/Pool/Same.antt =====
-- The live proxies of the API and the members of the rotating pool port.
use modemproxy.Prelude.{
  ℕ, ◌≡◌, refl, ap, ◌∙◌, String, Bool, true, false, List, [], ◌∷◌, arith, map, keep, length,
}
use modemproxy.Db.Rows.{Store}
use modemproxy.Db.Listing.{Listed, list_modems}
use modemproxy.Generator.Pool.{is_live, live_rows, weigh, pool_members, Member}
use modemproxy.Web.Pool.{LiveProxy, is_offered, live_proxy, live_proxies}

is_offered-is_live : (now : ℕ) (r : Listed) → is_offered now r ≡ is_live now r
unfolding is_offered is_live
is_offered-is_live now r = ground arith

weigh_rows :
    (n : ℕ) (first : Bool) (rs : List Listed)
    → map (λ (m : Member). m.row.modem.imei) (weigh n first rs) ≡ map (λ r. r.modem.imei) rs
unfolding weigh
weigh_rows n first [] = refl
weigh_rows n first (r ∷ rs) = ap (λ is. r.modem.imei ∷ is) (weigh_rows n false rs)

kept_rows :
    (host : String) (now : ℕ) (rs : List Listed)
    → map (λ (p : LiveProxy). p.imei) (map (live_proxy host) (keep (is_offered now) rs))
      ≡ map (λ r. r.modem.imei) (keep (is_live now) rs)
unfolding live_proxy
kept_rows host now [] = refl
kept_rows host now (r ∷ rs) = ground (arith, is_offered-is_live now r, kept_rows host now rs)

-- The API's pool lists the modems of the rotating pool port, each once and in the same order, though
-- the two are computed by separate code.
pub live_proxies-pool_members :
    (host : String) (now : ℕ) (s : Store)
    → map (λ (p : LiveProxy). p.imei) (live_proxies host now s)
      ≡ map (λ (m : Member). m.row.modem.imei) (pool_members now s)
unfolding live_proxies pool_members live_rows
live_proxies-pool_members host now s =
    kept_rows host now (list_modems s)
    ∙ (rw (weigh_rows (length (live_rows now s)) true (live_rows now s)) refl)
