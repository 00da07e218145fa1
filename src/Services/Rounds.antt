-- ===== src/Services/Rounds.antt =====
-- modemproxy/services/quota.py and subscriptions.py: the loops of `check` over the modems.
use modemproxy.Prelude.{◌≡◌, refl, sym, List, [], ◌∷◌, ◌++◌, Option, All, inl, inr, arith}
use mathlib.Core.Path.{subst}
use modemproxy.Result.{Result, ok, err, Result-cases}
use modemproxy.Db.Rows.{Port}
use modemproxy.Generator.Sync.{System}
use modemproxy.Generator.Proxy.{Outcome}

-- The actions of a check, unless it raised, and what it leaves.
pub record Checked (A : Type 0) : Type 0 where
  pub actions : Result (List A)
  pub sys : System

unfoldable pub no_action : {A : Type 0} → System → Checked A
no_action sys = record { actions = ok []; sys = sys }

-- A proxy operation, and then the entry for the list of actions.
acted : {A : Type 0} → Result (Option Port) → List A → System → Checked A
acted (ok p) acts sys = record { actions = ok acts; sys = sys }
acted (err e) acts sys = record { actions = err e; sys = sys }

unfoldable pub act : {A : Type 0} → Outcome → List A → Checked A
unfolding acted
act o acts = acted o.value acts o.sys

pub act_sys : {A : Type 0} (o : Outcome) (l : List A) → (act o l).sys ≡ o.sys
unfolding act
act_sys o l = ground arith

pub act_ok :
    {A : Type 0} (o : Outcome) (l acts : List A)
    → (act o l).actions ≡ ok acts
    → (r : Option Port) × (o.value ≡ ok r)
unfolding act
act_ok o l acts h = elim (Result-cases o.value) [
  | inl there ↦ there
  | inr (e, f) ↦ absurd (ground (arith, f))
]

prepend : {A : Type 0} → List A → Checked A → Checked A
prepend acts c = record {
  actions = elim c.actions [ ok more ↦ ok (acts ++ more) | err e ↦ err e ];
  sys = c.sys;
}

continue_with : {A : Type 0} → Result (List A) → System → (System → Checked A) → Checked A
unfolding prepend
continue_with (ok acts) sys rest = prepend acts (rest sys)
continue_with (err e) sys rest = record { actions = err e; sys = sys }

-- One step for each item, up to the first exception.
unfoldable pub each : {I A : Type 0} → (I → System → Checked A) → List I → System → Checked A
unfolding continue_with
each step [] sys = no_action sys
each step (i ∷ is) sys = continue_with (step i sys).actions (step i sys).sys (each step is)

continued :
    {A : Type 0} (r : Result (List A)) (sys : System) (rest : System → Checked A) (acts : List A)
    → (continue_with r sys rest).actions ≡ ok acts
    → (first : List A) × (more : List A) × (r ≡ ok first)
      × ((rest sys).actions ≡ ok more)
      × ((continue_with r sys rest).sys ≡ (rest sys).sys)
unfolding continue_with prepend
continued (ok first) sys rest acts h = elim (Result-cases (rest sys).actions) [
  | inl (more, e) ↦ (first, more, refl, e, refl)
  | inr (x, e) ↦ absurd (ground (arith, e))
]
continued (err e) sys rest acts h = absurd (cc h)

module _ {I A : Type 0} (P : I → System → Type 0) (step : I → System → Checked A)
    (keeps : (i j : I) (t : System) (acts : List A)
      → (step i t).actions ≡ ok acts
      → P j t
      → P j (step i t).sys) where
  pub each_keeps :
      (is : List I) (j : I) (sys : System) (acts : List A)
      → (each step is sys).actions ≡ ok acts
      → P j sys
      → P j (each step is sys).sys
  unfolding each no_action
  each_keeps [] j sys acts h p = p
  each_keeps (i ∷ is) j sys acts h p =
      let (first, more, e, f, g) =
        continued (step i sys).actions (step i sys).sys (each step is) acts h in
      rw g (each_keeps is j (step i sys).sys more f (keeps i j sys first e p))

  -- What each step brings about for its item and no step undoes holds for all items in the end.
  pub each_establishes :
      (is : List I) (sys : System) (acts : List A)
      → ((i : I) (t : System) (some_acts : List A)
          → (step i t).actions ≡ ok some_acts
          → P i (step i t).sys)
      → (each step is sys).actions ≡ ok acts
      → All (λ i. P i (each step is sys).sys) is
  unfolding each no_action
  each_establishes [] sys acts brings h = tt
  each_establishes (i ∷ is) sys acts brings h =
      let (first, more, e, f, g) =
        continued (step i sys).actions (step i sys).sys (each step is) acts h in
      subst (λ t. P i t × All (λ k. P k t) is) (sym g)
        (
          each_keeps is i (step i sys).sys more f (brings i sys first e),
          each_establishes is (step i sys).sys more brings f,
        )
