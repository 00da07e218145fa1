-- ===== src/Generator/Pool/Members.antt =====
-- modemproxy/proxy/generator.py: who is in the rotating pool, and with which share.
use native.Mathlib.Nat.{div-add-mod}
use modemproxy.Prelude.{
  ℕ, suc, ◌+◌, ◌/◌, ◌*◌, ◌≤◌, ◌<◌, ◌↔◌, String, ◌≡◌, ◌≢◌, refl, Option, Option-cases, inl, inr,
  truthy, eq_iff, sym, Bool, true, false, List, [], ◌∷◌, none, some, arith, has_text, length, All,
  ap, ◌∙◌,
}
use modemproxy.Table
use modemproxy.Db.Rows.{Modem, Port, Store}
use modemproxy.Db.Ports.{get_port}
use modemproxy.Db.Modems.{get_modem, modem_key}
use modemproxy.Db.Listing.{Listed, listed_imeis, join_port, has_text-keep-list_modems}
use modemproxy.Generator.Pool.{Member, is_expired, serves, is_live, weigh, live_rows, pool_members}

abbrev pub total_weight : List Member → ℕ
total_weight [] = 0
total_weight (m ∷ ms) = m.weight + total_weight ms

abbrev pub member_imeis : List Member → List String
member_imeis [] = []
member_imeis (m ∷ ms) = m.row.modem.imei ∷ member_imeis ms

weight_rest : (n : ℕ) (rs : List Listed) → total_weight (weigh n false rs) ≡ length rs * (1000 / n)
unfolding weigh
weight_rest n [] = omega arith
weight_rest n (r ∷ rs) = grind (arith, weight_rest n rs)

weight_all :
    (n : ℕ) (r : Listed) (rs : List Listed)
    → n ≡ suc (length rs)
    → total_weight (weigh n true (r ∷ rs)) ≡ 1000
unfolding weigh
weight_all n r rs e =
    omega (arith, weight_rest n rs, div-add-mod 1000 n, ap (λ (k : ℕ). k * (1000 / n)) e)

weight_nonempty :
    (rs : List Listed)
    → weigh (length rs) true rs ≢ []
    → total_weight (weigh (length rs) true rs) ≡ 1000
unfolding weigh
weight_nonempty [] h = absurd (h refl)
weight_nonempty (r ∷ rs) h = weight_all (suc (length rs)) r rs refl

-- The shares of a pool that has a member add up to 1000.
pub total_weight-pool_members :
    (now : ℕ) (s : Store) → pool_members now s ≢ [] → total_weight (pool_members now s) ≡ 1000
unfolding pool_members
total_weight-pool_members now s some_live = weight_nonempty (live_rows now s) some_live

weigh_imeis :
    (n : ℕ) (first : Bool) (rs : List Listed) → member_imeis (weigh n first rs) ≡ listed_imeis rs
unfolding weigh
weigh_imeis n first [] = refl
weigh_imeis n first (r ∷ rs) = ap (λ l. r.modem.imei ∷ l) (weigh_imeis n false rs)

pub pool_members_rows :
    (now : ℕ) (s : Store) (j : String)
    → Table.Distinct modem_key s.modems
    → has_text j (member_imeis (pool_members now s))
      ≡ elim (get_modem j s) [ none ↦ false | some m ↦ is_live now (join_port s m) ]
unfolding pool_members live_rows
pool_members_rows now s j d =
    rw (weigh_imeis (length (live_rows now s)) true (live_rows now s))
      (has_text-keep-list_modems (is_live now) s j d)

-- What a modem of the pool must be.
pub record Serves (now : ℕ) (j : String) (s : Store) : Type 0 where
  pub modem : Modem
  pub port : Port
  pub known : get_modem j s ≡ some modem
  pub online : modem.status ≡ "online"
  pub has_row : get_port j s ≡ some port
  pub listens : (n : ℕ) × (port.http_port ≡ some n) × (0 < n)
  pub enabled : 0 < port.enabled
  pub unlocked : port.quota_locked ≡ 0
  pub unexpired : (t : ℕ) → port.expires_at ≡ some t → 0 < t → now < t

serves-some : (now : ℕ) (o : Option Port) → serves now o ≡ true → (p : Port) × (o ≡ some p)
unfolding serves
serves-some now none h = absurd (cc h)
serves-some now (some p) h = (p, refl)

truthy-some : (o : Option ℕ) → truthy o ≡ true → (n : ℕ) × (o ≡ some n) × (0 < n)
truthy-some none h = absurd (cc h)
truthy-some (some n) h = (n, refl, ground (arith, h))

row-Serves :
    (now : ℕ) (j : String) (s : Store) (m : Modem) (p : Port)
    → get_modem j s ≡ some m
    → get_port j s ≡ some p
    → is_live now (record { modem = m; port = some p }) ≡ true
    → Serves now j s
unfolding is_live serves is_expired
row-Serves now j s m p em ep h = record {
  modem = m;
  port = p;
  known = em;
  online = ground (arith, h, eq_iff m.status "online");
  has_row = ep;
  listens = truthy-some p.http_port (ground (arith, h));
  enabled = ground (arith, h);
  unlocked = ground (arith, h);
  unexpired = λ t e pos. ground (arith, h, e, pos);
}

Serves-is_live :
    (now : ℕ) (j : String) (s : Store) (v : Serves now j s)
    → is_live now (record { modem = v.modem; port = some v.port }) ≡ true
unfolding is_live serves is_expired
Serves-is_live now j s v = elim (Option-cases v.port.expires_at) [
  | inl e ↦ ground (
    arith,
    e,
    v.online,
    eq_iff v.modem.status "online",
    v.listens.1,
    v.listens.2,
    v.enabled,
    v.unlocked,
  )
  | inr (t, e) ↦ ground (
    arith,
    e,
    v.unexpired t e,
    v.online,
    eq_iff v.modem.status "online",
    v.listens.1,
    v.listens.2,
    v.enabled,
    v.unlocked,
  )
]

join_port-of :
    (s : Store) (m : Modem) (j : String)
    → m.imei ≡ j
    → join_port s m ≡ record { modem = m; port = get_port j s }
join_port-of s m j k = ap (λ i. record { modem = m; port = get_port i s }) k

live-Serves :
    (now : ℕ) (j : String) (s : Store) (m : Modem)
    → get_modem j s ≡ some m
    → is_live now (record { modem = m; port = get_port j s }) ≡ true
    → Serves now j s
unfolding is_live
live-Serves now j s m em h =
    let (p, ep) = serves-some now (get_port j s) (ground (arith, h)) in
    row-Serves now j s m p em ep
      (ap (λ o. is_live now (record { modem = m; port = o })) (sym ep) ∙ h)

rows-Serves :
    (now : ℕ) (j : String) (s : Store)
    → (elim (get_modem j s) [ none ↦ false | some m ↦ is_live now (join_port s m) ] ≡ true)
      ↔ Serves now j s
unfolding get_modem
rows-Serves now j s = (
  λ h. elim (Table.find_cases modem_key j s.modems) [
    | inl e ↦ absurd (ground (arith, e, h))
    | inr (m, e, k) ↦
        live-Serves now j s m e (rw (sym (join_port-of s m j k)) (ground (arith, e, h)))
  ],
  λ v. rw v.known (
      rw (join_port-of s v.modem j (Table.find_key modem_key j s.modems v.modem v.known), v.has_row)
        (Serves-is_live now j s v)),
)

-- A modem is a member of the pool exactly if it is known, online, and its proxy has an HTTP port, is
-- enabled, is not locked by its quota and has not expired.
pub has_text-pool_members :
    (now : ℕ) (s : Store) (j : String)
    → Table.Distinct modem_key s.modems
    → (has_text j (member_imeis (pool_members now s)) ≡ true) ↔ Serves now j s
has_text-pool_members now s j d = rw (pool_members_rows now s j d) (rows-Serves now j s)

share_pos : (n : ℕ) → 0 < n → n ≤ 1000 → 0 < 1000 / n
share_pos n pos le = grind (arith, div-add-mod 1000 n)

weigh_pos :
    (n : ℕ) (first : Bool) (rs : List Listed)
    → 0 < n
    → n ≤ 1000
    → All (λ m. 0 < m.weight) (weigh n first rs)
unfolding weigh
weigh_pos n first [] pos le = tt
weigh_pos n first (r ∷ rs) pos le = (omega (arith, share_pos n pos le), weigh_pos n false rs pos le)

weights_pos :
    (rs : List Listed) → length rs ≤ 1000 → All (λ m. 0 < m.weight) (weigh (length rs) true rs)
unfolding weigh
weights_pos [] le = tt
weights_pos (r ∷ rs) le = weigh_pos (suc (length rs)) true (r ∷ rs) (omega arith) le

-- Up to a thousand live modems, every member gets a share of new connections.
pub pool_members-weighted :
    (now : ℕ) (s : Store)
    → length (live_rows now s) ≤ 1000
    → All (λ m. 0 < m.weight) (pool_members now s)
unfolding pool_members
pool_members-weighted now s le = weights_pos (live_rows now s) le
