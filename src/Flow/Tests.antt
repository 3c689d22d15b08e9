-- ===== src/Flow/Tests.antt =====
-- Runs of flow control, and the theorems at concrete states.
use nxp.Prelude.{◌≡◌, refl, arith, true, false}
use nxp.Flow.{FlowCtrl, on_send, set_peer_max, can_send}
use nxp.Flow.Credit.{sends, raises, done, and_then, IsWithin, IsLater, Run-IsWithin}

abbrev start : FlowCtrl
start = record {
  peer_max_data = 1000;
  data_sent = 0;
  local_max_data = 1000;
  data_recv = 1000;
  max_data_next = 1000;
  send_max_data = false;
}

allowed : can_send start 900 ≡ true
unfolding can_send
allowed = refl

abbrev after_send : FlowCtrl
after_send = set_peer_max (on_send start 900) 2000

Run-IsWithin_example : IsWithin after_send × IsLater start after_send
Run-IsWithin_example =
    Run-IsWithin start after_send
      (and_then (sends start 900 allowed (omega arith))
        (and_then (raises (on_send start 900) 2000) (done after_send)))
      (omega arith, omega arith)
