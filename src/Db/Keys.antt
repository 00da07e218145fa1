-- ===== src/Db/Keys.antt =====
-- modemproxy/db.py: api_key_create, api_key_revoke and api_key_valid.
use modemproxy.Prelude.{
  ℕ, String, ◌≡◌, ◌≢◌, refl, Bool, true, false, Option, none, some, arith, eq_iff, ◌==◌,
  if◌then◌else◌,
}
use modemproxy.Result.{Result, ok, err, integrity_error}
use modemproxy.Table
use modemproxy.Db.Rows.{ApiKey, Store}

abbrev pub key_of : ApiKey → String
key_of r = r.key

abbrev found {ℓ} : {A : Type ℓ} → Option A → Bool
found none = false
found (some a) = true

-- `key` is "mk_" with a fresh secret behind it; a key that is there already breaks the PRIMARY KEY.
unfoldable pub api_key_create : String → String → ℕ → Store → Result Store
api_key_create key label now s = elim (Table.find key_of key s.api_keys) [
  | some _ ↦ err integrity_error
  | none ↦ ok (record s {
    api_keys =
        Table.insert key_of
          (record { key = key; label = label; created_at = now; last_used = none }) s.api_keys;
  })
]

-- `rowcount > 0`, and the table without the key.
unfoldable pub api_key_revoke : String → Store → Bool × Store
api_key_revoke key s = (
  found (Table.find key_of key s.api_keys),
  record s { api_keys = Table.delete key_of key s.api_keys },
)

-- A valid key has its last use recorded.
unfoldable pub api_key_valid : String → ℕ → Store → Bool × Store
api_key_valid key now s =
    if key == "" then (false, s) else elim (Table.find key_of key s.api_keys) [
      | none ↦ (false, s)
      | some _ ↦ (
        true,
        record s {
          api_keys = Table.update key_of key (λ r. record r { last_used = some now }) s.api_keys;
        },
      )
    ]

-- Checking a key, valid or not, changes the validity of none.
pub api_key_valid_stable :
    (key j : String) (now later : ℕ) (s : Store)
    → (api_key_valid j later (api_key_valid key now s).1).0 ≡ (api_key_valid j later s).0
unfolding api_key_valid
api_key_valid_stable key j now later s = ground (
  arith,
  eq_iff key j,
  Table.find-update key_of key j (λ r. record r { last_used = some now }) s.api_keys (λ r. refl),
)

-- A key that was created is valid at once, and the other keys are as valid as they were.
pub api_key_valid-api_key_create :
    (key label j : String) (now later : ℕ) (s t : Store)
    → api_key_create key label now s ≡ ok t
    → key ≢ ""
    → (api_key_valid j later t).0 ≡ (if key == j then true else (api_key_valid j later s).0)
unfolding api_key_create api_key_valid
api_key_valid-api_key_create key label j now later s t h ne = ground (
  arith,
  eq_iff key j,
  eq_iff j "",
  eq_iff key "",
  Table.find-insert key_of j
      (record { key = key; label = label; created_at = now; last_used = none }) s.api_keys,
)

-- A revoked key is invalid from then on, the others stay as they were, and the answer says whether
-- the key was there.
pub api_key_revoke_lem :
    (key j : String) (now : ℕ) (s : Store)
    → key ≢ ""
    → ((api_key_revoke key s).0 ≡ (api_key_valid key now s).0)
      × ((api_key_valid j now (api_key_revoke key s).1).0
          ≡ (if key == j then false else (api_key_valid j now s).0))
unfolding api_key_revoke api_key_valid
api_key_revoke_lem key j now s ne = (
  ground (arith, eq_iff key ""),
  ground (arith, eq_iff key j, eq_iff j "", Table.find-delete key_of key j s.api_keys),
)
