-- ===== src/WindowedFilter/Tests.antt =====
-- Runs of the windowed filter, and the theorem at a concrete state.
use nxp.Prelude.{◌+◌, ◌≤◌, ◌≡◌, ◌⊎◌, refl, arith, true, false}
use nxp.WindowedFilter.{WindowedFilter, get, is_better, is_older, shift, shift_again, renew, update}
use nxp.WindowedFilter.Fresh.{IsTimed, update-IsTimed}

abbrev aging : WindowedFilter
aging = record {
  best = record { value = 10; time = 0 };
  second = record { value = 5; time = 4 };
  third = record { value = 3; time = 8 };
  window = 10;
  is_max = true;
  initialized = true;
}

-- A maximum filter whose best sample expires: the older 5 becomes the best, and not the new 8.
expired_best : get (update aging 8 11) ≡ 5
unfolding get update is_better is_older shift shift_again renew
expired_best = refl

update-IsTimed_example :
    let f' = update aging 8 9 in
    IsTimed f' 9
    × (9 ≤ f'.best.time + f'.window)
    × (true ≡ false → get f' ≡ 8)
    × (true ≡ true
        → is_older aging.best 9 10 ≡ false
        → (is_better aging (get f') (get aging) ≡ true) × (is_better aging (get f') 8 ≡ true))
    × (true ≡ true → is_older aging.best 9 10 ≡ true → (get f' ≡ 8) ⊎ ((get f' ≡ 5) ⊎ (get f' ≡ 3)))
update-IsTimed_example =
    update-IsTimed aging 8 8 9 (omega arith, omega arith, omega arith) (omega arith) (omega arith)
