-- ===== src/Tests/Misc.antt =====
-- The timer and the front detector at concrete inputs.
use svisual.Prelude.{◌≤◌, ◌<◌, ℕ, ◌≡◌, refl, List, [], ◌∷◌, Bool, true, false, Option, none, arith}
use svisual.Misc.Front.{pos_front, pos_fronts}
use svisual.Misc.SpinLock.{
  Lock, new_lock, Reachable, start, more, gate_w, test_w, enter_free, open_w, exclusion,
}
use svisual.Misc.Timer.{Clock}

abbrev flickers : List Bool
flickers = true ∷ true ∷ false ∷ true ∷ []

-- The detector itself, run.
fronts_of_flickers : pos_fronts 3 flickers [] ≡ true ∷ false ∷ false ∷ true ∷ []
unfolding pos_fronts pos_front
fronts_of_flickers = refl

abbrev times : List (ℕ × Option Clock)
times = (1100, none) ∷ (1450, none) ∷ (2000, none) ∷ (2001, none) ∷ []

abbrev written_lock : Lock
written_lock = record new_lock { write_lock = true; holding_w = 1 }

-- A writer goes through, step by step.
written_lock-Reachable : Reachable written_lock
written_lock-Reachable =
    more
      (more
        (more (more start (gate_w new_lock refl))
          (test_w (record new_lock { read_lock = true; gated_w = 1 }) (omega arith)))
        (enter_free (record new_lock { read_lock = true; free_w = 1 }) (omega arith) refl))
      (open_w (record new_lock { read_lock = true; write_lock = true; entered_w = 1 })
        (omega arith))

exclusion_example :
    (1 ≤ 1)
    × ((0 < written_lock.holding_w) → written_lock.holding_r ≡ 0)
    × ((written_lock.read_lock ≡ false) → written_lock.read_count ≡ written_lock.holding_r)
exclusion_example = exclusion written_lock-Reachable
