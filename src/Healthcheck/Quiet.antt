-- ===== src/Healthcheck/Quiet.antt =====
-- When the health check reports: on a change, on a repair and at boot, and not otherwise.
use modemproxy.Prelude.{
  ◌≡◌, refl, String, Bool, true, ◌&&◌, ◌||◌, List, [], ◌∷◌, Option, none, some, arith,
  if◌then◌else◌, sorted, sorted-sorted, str_refl, map,
}
use modemproxy.Healthcheck.Site.{Check}
use modemproxy.Healthcheck.Run.{Repair, conclude, failed_keys, failed_checks, same_texts, any}

same_texts_refl : (xs : List String) → same_texts xs xs ≡ true
unfolding same_texts
same_texts_refl [] = refl
same_texts_refl (x ∷ xs) = ground (arith, str_refl x, same_texts_refl xs)

failed_keys-sorted : (checks : List Check) → sorted (failed_keys checks) ≡ failed_keys checks
unfolding failed_keys
failed_keys-sorted checks = sorted-sorted (map (λ (c : Check). c.key) (failed_checks checks))

-- When the checks that fail are those that failed at the run before, whose state was saved, a report is
-- sent only at boot or after a repair, whatever the details say.
pub conclude-conclude :
    (boot boot' notify notify' writable : Bool) (checks checks' : List Check)
    (healed healed' : List Repair) (state : Option (List String))
    → failed_keys checks' ≡ failed_keys checks
    → let before = conclude boot notify true checks healed state in
      (conclude boot' notify' writable checks' healed' before.state).report
      ≡ (if notify' && (boot' || any healed') then some (checks', healed') else none)
unfolding conclude
conclude-conclude boot boot' notify notify' writable checks checks' healed healed' state same =
    rw (failed_keys-sorted checks, same, same_texts_refl (failed_keys checks)) (ground arith)
