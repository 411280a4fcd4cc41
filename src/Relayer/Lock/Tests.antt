-- ===== src/Relayer/Lock/Tests.antt =====
-- Two instances at the lock, and the theorem there.
use verivyx_monorepo.Prelude.{◌≡◌, refl, Option, some, List, [], ◌∷◌, codes, text_eq, arith}
use verivyx_monorepo.Relayer.Lock.{
  Held, set_nx, retry, timed_out, acquire_turn, release, Hold, Reaches, initial, enter,
}
use verivyx_monorepo.Relayer.Lock.Laws.{Apart, lock-Apart}

lock_all : Unit {0}
unfolding set_nx acquire_turn release text_eq
lock_all = tt

abbrev taken : Option Held
taken = some (record { token = codes "a"; expires_at = 95 })

second_waits : (acquire_turn 90 120 10 20 (codes "b") taken).0 ≡ retry
unfolding lock_all
second_waits = refl

second_gives_up : (acquire_turn 90 50 10 70 (codes "b") taken).0 ≡ timed_out
unfolding lock_all
second_gives_up = refl

only_the_owner_releases : release 20 (codes "b") taken ≡ taken
unfolding lock_all
only_the_owner_releases = refl

abbrev overlapping : List Hold
overlapping =
    record { token = codes "b"; since = 95 } ∷ record { token = codes "a"; since = 5 } ∷ []

-- The first body is still at work when its lock expires.
second_enters : Reaches 90 95 overlapping (some (record { token = codes "b"; expires_at = 185 }))
unfolding lock_all
second_enters =
    enter 95 120 10 (codes "b") (enter 5 120 5 (codes "a") initial (omega arith) refl) (omega arith)
      refl

lock-Apart_example : Apart 90 overlapping
lock-Apart_example = lock-Apart 90 second_enters
