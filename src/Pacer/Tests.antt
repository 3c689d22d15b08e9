-- ===== src/Pacer/Tests.antt =====
-- Runs of the pacer, and the theorems at concrete states.
use nxp.Prelude.{◌≡◌, refl, arith, true}
use nxp.Pacer.{Pacer, can_send, on_send}
use nxp.Pacer.Rate.{sends, done, and_then, IsOn, IsPaid, Run-IsPaid}

-- One million bytes a second, with tokens for one packet of 1000 bytes.
abbrev low : Pacer
low = record {
  rate_bps = 1000000;
  tokens = 1000000;
  last_update = 500;
  max_burst = 12000;
  enabled = true;
  time_initialized = true;
}

low-IsOn : IsOn low
low-IsOn = (refl, omega arith, refl)

may : can_send low 1000 ≡ true
unfolding can_send
may = refl

after : (on_send low 1000).last_update ≡ 500
unfolding on_send
after = refl

Run-IsPaid_example : IsPaid low 1000 (on_send low 1000)
Run-IsPaid_example =
    Run-IsPaid low 1000 (on_send low 1000)
      (and_then (sends low 1000 (omega arith) may) (done (on_send low 1000))) low-IsOn
