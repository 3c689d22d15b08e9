-- ===== src/WindowedFilter/Fresh.antt =====
-- The best sample of the filter is never older than the window, and while it is in the window no better one
-- is forgotten.
use nxp.Prelude.{ℕ, ◌+◌, ◌≤◌, ◌<◌, ◌≡◌, ◌⊎◌, arith, true, false}
use nxp.Prelude.Word.{u64_mod}
use nxp.WindowedFilter.{
  Sample, WindowedFilter, reset, get, is_better, is_older, shift, shift_again, renew,
  update_runners_up, update,
}

-- The samples are in the order of their times, none of which is in the future.
abbrev pub IsTimed : WindowedFilter → ℕ → Type 0
IsTimed f now =
    (f.best.time ≤ f.second.time) × (f.second.time ≤ f.third.time) × (f.third.time ≤ now)

renew-IsTimed :
    (f : WindowedFilter) (value last now : ℕ)
    → IsTimed f last
    → last ≤ now
    → now < u64_mod
    → let s : Sample = record { value = value; time = now } in
      let f' = renew (shift_again (shift f s) now) s in
      IsTimed f' now × (now ≤ f'.best.time + f'.window)
unfolding renew shift_again shift is_older
renew-IsTimed f value last now h hn hb = ground (arith, h, hn, hb)

-- Whatever the samples, given at times below 2^64 that do not go back: after an update the samples are in the
-- order of their times, and the best one is not older than the window. If the filter was empty, the best is the
-- new one. If its best was not older than the window, the best is now as good as that one and as good as the
-- new one. If its best was older, the best is the new one, or one that was second or third.
pub update-IsTimed :
    (f : WindowedFilter) (value last now : ℕ)
    → IsTimed f last
    → last ≤ now
    → now < u64_mod
    → let f' = update f value now in
      IsTimed f' now
      × (now ≤ f'.best.time + f'.window)
      × (f.initialized ≡ false → get f' ≡ value)
      × (f.initialized ≡ true
          → is_older f.best now f.window ≡ false
          → (is_better f (get f') (get f) ≡ true) × (is_better f (get f') value ≡ true))
      × (f.initialized ≡ true
          → is_older f.best now f.window ≡ true
          → (get f' ≡ value) ⊎ ((get f' ≡ f.second.value) ⊎ (get f' ≡ f.third.value)))
unfolding update reset is_better update_runners_up is_older get renew shift_again shift
update-IsTimed f value last now h hn hb =
    let renewed = renew-IsTimed f value last now h hn hb in
    (
      ground (arith, h, hn, hb, renewed),
      ground (arith, h, hn, hb, renewed),
      λ empty. ground (arith, empty),
      λ full fresh. ground (arith, full, fresh, h, hn, hb),
      λ full old. ground (arith, full, old, h, hn, hb),
    )
