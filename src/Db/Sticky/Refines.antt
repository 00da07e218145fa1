-- ===== src/Db/Sticky/Refines.antt =====
-- The table of sticky sessions keeps its promise.
use modemproxy.Prelude.{ℕ, ◌<◌, ◌≡◌, refl, ◌∙◌, ap, List, [], ◌∷◌, none, arith}
use modemproxy.Table
use modemproxy.Db.Rows.{Modem, Store}
use modemproxy.Db.Sticky.{find_session, sticky_get, sticky_purge_expired}
use modemproxy.Db.Sticky.Promise.{
  Call, store, fetch, clean, answers, Sessions, live_at, replay, Timed, Represents,
}
use modemproxy.Db.Sticky.Steps.{
  Represents-later, row_answer-live_at, sticky_get-row_answer, fetch-Represents, clean-Represents,
  store-Represents,
}

answers-replay_from :
    (calls : List (ℕ × Call)) (now : ℕ) (modems : List Modem) (f : Sessions) (s : Store)
    → 0 < now
    → Timed now calls
    → Represents now modems f s
    → answers calls s ≡ replay modems calls f
unfolding answers replay
answers-replay_from [] now modems f s pos times h = refl
answers-replay_from ((t, store key imei ttl) ∷ calls) now modems f s pos times h =
    let later : 0 < t = omega (arith, pos, times.0) in
    answers-replay_from calls t modems _ _ later times.1 (
      store-Represents t modems f key imei ttl s later
        (Represents-later now t modems f s times.0 h))
answers-replay_from ((t, fetch key) ∷ calls) now modems f s pos times h =
    let h' = Represents-later now t modems f s times.0 h in
    ap (λ a. a ∷ answers calls (sticky_get key t s).1)
      (sticky_get-row_answer key t s
        ∙ row_answer-live_at t (f key) (find_session key s) (h'.agrees key))
    ∙ ap (λ as'. live_at t (f key) ∷ as')
        (answers-replay_from calls t modems f (sticky_get key t s).1 (omega (arith, pos, times.0))
          times.1 (fetch-Represents t modems f key s h'))
answers-replay_from ((t, clean) ∷ calls) now modems f s pos times h =
    answers-replay_from calls t modems f (sticky_purge_expired t s) (omega (arith, pos, times.0))
      times.1 (clean-Represents t modems f s (Represents-later now t modems f s times.0 h))

-- On a database without sessions, any sequence of timed calls whose times never go back answers as a
-- function from keys to a modem and its end does: a key has the modem that was last stored for it,
-- through its end, whatever was fetched or cleaned in between; storing for a modem that is not there
-- changes nothing.
pub answers-replay :
    (calls : List (ℕ × Call)) (now : ℕ) (s : Store)
    → s.sticky ≡ []
    → 0 < now
    → Timed now calls
    → answers calls s ≡ replay s.modems calls (λ key. none)
unfolding find_session Table.find
answers-replay calls now s none_yet pos times =
    answers-replay_from calls now s.modems (λ key. none) s pos times
      (record {
        modems_are = refl;
        distinct = rw none_yet tt;
        agrees = λ key. rw (find_session, none_yet) tt;
      })
