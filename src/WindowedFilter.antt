-- ===== src/WindowedFilter.antt =====
-- The windowed minimum or maximum: src/congestion/windowed_filter.h. The fields `best`, `second` and
-- `third` are the array `s`.
pub mod Fresh
mod Tests
use nxp.Prelude.{ℕ, ◌+◌, ◌-◌, ◌*◌, ◌/◌, ◌%◌, Bool, true, false, not, ◌||◌, ltb, leb, if◌then◌else◌}
use nxp.Prelude.Word.{sub64}

pub record Sample : Type 0 where
  pub value : ℕ
  pub time : ℕ

pub record WindowedFilter : Type 0 where
  pub best : Sample
  pub second : Sample
  pub third : Sample
  pub window : ℕ
  pub is_max : Bool
  pub initialized : Bool

abbrev no_sample : Sample
no_sample = record { value = 0; time = 0 }

unfoldable pub init : ℕ → Bool → WindowedFilter
init window is_max = record {
  best = no_sample;
  second = no_sample;
  third = no_sample;
  window = window;
  is_max = is_max;
  initialized = false;
}

unfoldable pub reset : WindowedFilter → Sample → WindowedFilter
reset f s = record f { best = s; second = s; third = s; initialized = true }

unfoldable pub get : WindowedFilter → ℕ
get f = f.best.value

unfoldable pub is_better : WindowedFilter → ℕ → ℕ → Bool
is_better f a b = if f.is_max then leb b a else leb a b

unfoldable pub is_older : Sample → ℕ → ℕ → Bool
is_older s now span = ltb span (sub64 now s.time)

-- The three steps where the best sample has expired.
unfoldable pub shift : WindowedFilter → Sample → WindowedFilter
shift f s = record f { best = f.second; second = f.third; third = s }

unfoldable pub shift_again : WindowedFilter → ℕ → WindowedFilter
shift_again f now =
    if is_older f.best now f.window then record f { best = f.second; second = f.third } else f

unfoldable pub renew : WindowedFilter → Sample → WindowedFilter
renew f s = if is_older f.best s.time f.window then record f { best = s; second = s } else f

unfoldable pub update_runners_up : WindowedFilter → Sample → WindowedFilter
update_runners_up f s =
    if is_better f s.value f.second.value || is_older f.second s.time (f.window / 4)
    then record f { second = s; third = s }
    else if is_better f s.value f.third.value || is_older f.third s.time (f.window / 2)
    then record f { third = s }
    else f

unfoldable pub update : WindowedFilter → ℕ → ℕ → WindowedFilter
update f value now =
    let s : Sample = record { value = value; time = now } in
    if not f.initialized
    then reset f s
    else if is_better f value f.best.value
    then reset f s
    else if is_older f.best now f.window
    then renew (shift_again (shift f s) now) s
    else update_runners_up f s
