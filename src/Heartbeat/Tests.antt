-- ===== src/Heartbeat/Tests.antt =====
-- Runs of the heartbeat engine, and the theorem at a concrete state.
use nxp.Prelude.{◌+◌, ◌≡◌, refl, arith, true, false, leb}
use nxp.Heartbeat.{Heartbeat, init, fire, check, on_recv, is_dead}
use nxp.Heartbeat.Silence.{silent, is_dead-silent}

-- The first probe is out.
abbrev probing : Heartbeat
probing = check (init 5000000) 100

probing-awaits : probing.awaiting_response ≡ true
unfolding check init fire
probing-awaits = refl

is_dead-silent_example :
    ((silent 3 probing).consecutive_misses ≡ probing.consecutive_misses + 3)
    × (is_dead (silent 3 probing) ≡ leb 3 (probing.consecutive_misses + 3))
    × (is_dead (on_recv (silent 3 probing) 7 8) ≡ false)
is_dead-silent_example =
    is_dead-silent 3 probing 7 8 (unfold check init fire in refl) (unfold check init fire in refl)
      probing-awaits (unfold check init fire in omega arith)
