-- ===== src/Services/Subscriptions/Ended.antt =====
-- modemproxy/services/subscriptions.py: what `check` leaves of the proxies whose time is up.
use modemproxy.Prelude.{
  ℕ, ◌≤◌, ◌<◌, ◌-◌, String, ◌≡◌, refl, sym, ap, ◌∙◌, false, List, Option, some, arith, eq_iff, ◌==◌,
  leb, ◌*◌, nonzero, Bool-cases, Option-cases, inl, inr, All, if_cases,
}
use modemproxy.Result.{ok, Result-cases}
use modemproxy.Events.{Event}
use modemproxy.Db.Rows.{Port}
use modemproxy.Db.Ports.{get_port}
use modemproxy.Db.Listing.{Listed, list_modems}
use modemproxy.Generator.Ports.{Secrets}
use modemproxy.Generator.Sync.{Host, System}
use modemproxy.Generator.Proxy.{Outcome, stop_proxy}
use modemproxy.Generator.Proxy.Frame.{stop_proxy-Frame, stop_proxy_disabled}
use modemproxy.Services.Notify.{announce, announce_rows}
use modemproxy.Services.Rounds.{Checked, no_action, act, act_sys, act_ok, each_establishes}
use modemproxy.Services.Subscriptions.{
  ExpiryAction, announced, disable, warn, warned, expire_port, expire, check_subscriptions,
}

-- A row of the list with a running proxy whose time is up.
pub record TimeUp (now : ℕ) (r : Listed) : Type 0 where
  pub port : Port
  pub end : ℕ
  pub has_port : r.port ≡ some port
  pub has_end : port.expires_at ≡ some end
  pub running : 0 < port.enabled
  pub set : 0 < end
  pub past : end ≤ now

-- Its proxy is disabled.
pub record Ended (now : ℕ) (r : Listed) (sys : System) : Type 0 where
  pub off : TimeUp now r → (q : Port) → get_port r.modem.imei sys.db ≡ some q → q.enabled ≡ 0

same_port : (j : String) (s t : System) → s ≡ t → get_port j s.db ≡ get_port j t.db
same_port j s t e = rw e refl

announce_port :
    (e : Event) (now : ℕ) (j : String) (sys : System)
    → get_port j (announce e now sys).db ≡ get_port j sys.db
unfolding get_port
announce_port e now j sys = rw (announce_rows e now sys).0 refl

announced_port :
    (e : Event) (now : ℕ) (j : String) (o : Outcome)
    → get_port j (announced e now o).sys.db ≡ get_port j o.sys.db
unfolding announced
announced_port e now j o = elim (Result-cases o.value) [
  | inl (p, h) ↦ rw (announced, h) (announce_port e now j o.sys)
  | inr (x, h) ↦ rw (announced, h) refl
]

announced_ok :
    (e : Event) (now : ℕ) (o : Outcome) (r : Option Port)
    → (announced e now o).value ≡ ok r
    → o.value ≡ ok r
unfolding announced
announced_ok e now o r h = ground arith

-- The three things that a round can be.
module _ (host : Host) (fresh : Secrets) (now : ℕ) (r : Listed) (sys : System)
    (Q : Checked ExpiryAction → Type 0)
    (stop : (e : Event) (l : List ExpiryAction)
      → Q (act (announced e now (stop_proxy host fresh now r.modem.imei false sys)) l))
    (warning : (days : ℕ) → ¬ TimeUp now r → Q (warned now r days sys))
    (nothing : ¬ TimeUp now r → Q (no_action sys)) where
  port_cases :
      (p : Port) (end : ℕ)
      → r.port ≡ some p
      → p.expires_at ≡ some end
      → Q (expire_port host fresh now r p end sys)
  unfolding expire_port disable warn
  port_cases p end hp he =
      if_cases Q (nonzero end) _ _
        (λ is_set.
          if_cases Q (leb end now) _ _
            (λ past.
              if_cases Q (nonzero p.enabled) _ _ (λ on. stop _ _)
                (λ off. nothing (λ up. ground (arith, off, hp, up.has_port, up.running))))
            (λ future.
              if_cases Q (leb (end - now) (sys.config.alert_expiry_days * 86400)) _ _
                (λ soon.
                  warning _
                    (λ up. ground (arith, future, hp, he, up.has_port, up.has_end, up.past)))
                (λ later.
                  nothing
                    (λ up. ground (arith, future, hp, he, up.has_port, up.has_end, up.past)))))
        (λ unset. nothing (λ up. ground (arith, unset, hp, he, up.has_port, up.has_end, up.set)))

  expire_cases : Q (expire host fresh now r sys)
  unfolding expire
  expire_cases = elim (Option-cases r.port) [
    | inl hp ↦ rw (expire, hp) (nothing (λ up. ground (arith, hp, up.has_port)))
    | inr (p, hp) ↦ elim (Option-cases p.expires_at) [
      | inl he ↦
          rw (expire, hp, he) (nothing (λ up. ground (arith, hp, he, up.has_port, up.has_end)))
      | inr (end, he) ↦ rw (expire, hp, he) (port_cases p end hp he)
    ]
  ]

-- One round leaves its own proxy disabled if its time is up, and no other proxy enabled.
expire-Ended :
    (host : Host) (fresh : Secrets) (now : ℕ) (r : Listed) (sys : System) (acts : List ExpiryAction)
    → (expire host fresh now r sys).actions ≡ ok acts
    → Ended now r (expire host fresh now r sys).sys
expire-Ended host fresh now r sys acts =
    expire_cases host fresh now r sys (λ c. c.actions ≡ ok acts → Ended now r c.sys)
      (λ e l h. record {
        off = λ up q f.
            let o = stop_proxy host fresh now r.modem.imei false sys in
            let (v, g) = act_ok (announced e now o) l acts h in
            stop_proxy_disabled host fresh now r.modem.imei false sys v q (announced_ok e now o v g)
              (sym (announced_port e now r.modem.imei o)
                ∙ sym (same_port r.modem.imei _ _ (act_sys (announced e now o) l))
                ∙ f);
      })
      (λ days not_up h. record { off = λ up q f. absurd (not_up up) })
      (λ not_up h. record { off = λ up q f. absurd (not_up up) })

-- Every proxy of a modem is disabled, if it has one.
Off : String → System → Type 0
Off j sys = (q : Port) → get_port j sys.db ≡ some q → q.enabled ≡ 0

-- A stop, whose alert follows, leaves a disabled proxy disabled, its own or another one.
Off-stop :
    (host : Host) (fresh : Secrets) (now : ℕ) (i j : String) (e : Event) (sys : System)
    (r : Option Port)
    → (stop_proxy host fresh now i false sys).value ≡ ok r
    → Off j sys
    → Off j (announced e now (stop_proxy host fresh now i false sys)).sys
unfolding Off
Off-stop host fresh now i j e sys r v off q f =
    let o = stop_proxy host fresh now i false sys in
    let f' : get_port j o.sys.db ≡ some q = sym (announced_port e now j o) ∙ f in
    elim (Bool-cases (i == j)) [
      | inl same ↦
          stop_proxy_disabled host fresh now i false sys r q v
            (ap (λ k. get_port k o.sys.db) ((eq_iff i j).0 same) ∙ f')
      | inr other ↦ off q (
          sym (
            (stop_proxy-Frame host fresh now i false sys).others_kept j
              (λ same. cc ((eq_iff i j).1 same, other)))
          ∙ f')
    ]

Off-expire :
    (host : Host) (fresh : Secrets) (now : ℕ) (r : Listed) (j : String) (sys : System)
    (acts : List ExpiryAction)
    → (expire host fresh now r sys).actions ≡ ok acts
    → Off j sys
    → Off j (expire host fresh now r sys).sys
unfolding Off warned no_action
Off-expire host fresh now r j sys acts h off =
    expire_cases host fresh now r sys (λ c. c.actions ≡ ok acts → Off j c.sys)
      (λ e l g q f.
        let o = stop_proxy host fresh now r.modem.imei false sys in
        let (v, k) = act_ok (announced e now o) l acts g in
        Off-stop host fresh now r.modem.imei j e sys v (announced_ok e now o v k) off q
          (sym (same_port j _ _ (act_sys (announced e now o) l)) ∙ f))
      (λ days not_up g q f. off q (sym (announce_port _ now j sys) ∙ f)) (λ not_up g q f. off q f) h

-- A check that does not raise leaves every proxy disabled that was running, with its time up, when
-- the check began.
pub check_subscriptions-Ended :
    (host : Host) (fresh : String → Secrets) (now : ℕ) (sys : System) (acts : List ExpiryAction)
    → (check_subscriptions host fresh now sys).actions ≡ ok acts
    → All (λ r. Ended now r (check_subscriptions host fresh now sys).sys) (list_modems sys.db)
unfolding check_subscriptions Off
check_subscriptions-Ended host fresh now sys acts h =
    each_establishes (λ r t. Ended now r t) (λ r. expire host (fresh r.modem.imei) now r)
      (λ i j t more g ended. record {
        off = λ up. Off-expire host (fresh i.modem.imei) now i j.modem.imei t more g (ended.off up);
      })
      (list_modems sys.db) sys acts
      (λ r t more. expire-Ended host (fresh r.modem.imei) now r t more) h
