-- ===== src/Tests/Db.antt =====
-- modemproxy/db.py on the small installation.
use modemproxy.Prelude.{ℕ, String, ◌≡◌, ◌≢◌, refl, List, [], ◌∷◌, some, none, arith, eq_iff}
use modemproxy.Result.{after}
use modemproxy.Table
use modemproxy.Table.{Distinct}
use modemproxy.Db.Rows.{Store}
use modemproxy.Db.Sticky.Promise.{Call, store, fetch, clean, answers, replay}
use modemproxy.Db.Sticky.Refines.{answers-replay}
use modemproxy.Db.Sticky.{sticky_set}
use modemproxy.Db.Alerts.{alert_should_send, sends, last_sent, Spaced, sends-Spaced}
use modemproxy.Db.Keys.{api_key_create}
use modemproxy.Db.Customers.{customer_assign}
use modemproxy.Tests.Fixture.{site}

abbrev with_session : Store
with_session = after site (sticky_set "user-42" "net-eth1" 600 1000 site)

abbrev created : Store
created = after site (api_key_create "mk_a" "scraper-1" 1000 site)

not_empty : ◌≢◌ {A = String} "mk_a" ""
not_empty e = ground (arith, eq_iff "mk_a" "")

alert_calls : List (String × ℕ)
alert_calls = ("down:a", 100) ∷ ("down:b", 110) ∷ ("down:a", 200) ∷ ("down:a", 280) ∷ []

sends_run : sends "down:a" 180 alert_calls site ≡ 100 ∷ 280 ∷ []
unfolding sends alert_should_send alert_calls Table.find Table.update Table.insert
sends_run = refl

sends-Spaced_example : Spaced 180 (last_sent "down:a" site) (sends "down:a" 180 alert_calls site)
sends-Spaced_example = sends-Spaced "down:a" 180 alert_calls site (omega arith)

abbrev shared : Store
shared = after site (customer_assign "anna" "867962040000001" site)

-- Stored for 600 seconds, cleaned, stored again for a modem that is not there, and read at and after
-- the end.
abbrev sticky_calls : List (ℕ × Call)
sticky_calls =
    (1000, store "user-42" "net-eth1" 600)
    ∷ (1500, clean)
    ∷ (1500, store "user-42" "no modem" 900)
    ∷ (1600, fetch "user-42")
    ∷ (1601, fetch "user-42")
    ∷ []

replayed : replay site.modems sticky_calls (λ key. none) ≡ some "net-eth1" ∷ none ∷ []
unfolding replay Table.find
replayed = refl

answers-replay_example : answers sticky_calls site ≡ replay site.modems sticky_calls (λ key. none)
answers-replay_example = answers-replay sticky_calls 1000 site refl (omega arith) (omega arith)
