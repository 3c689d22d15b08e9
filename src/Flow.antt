-- ===== src/Flow.antt =====
-- Flow control: src/core/flow_control.c, and `nxp_flow_ctrl` of src/core/connection_internal.h.
pub mod Credit
mod Tests
use nxp.Prelude.{ℕ, ◌+◌, ◌*◌, ◌/◌, Bool, true, false, ◌&&◌, ltb, leb, if◌then◌else◌}
use nxp.Prelude.Word.{add64}

pub record FlowCtrl : Type 0 where
  pub peer_max_data : ℕ
  pub data_sent : ℕ
  pub local_max_data : ℕ
  pub data_recv : ℕ
  pub max_data_next : ℕ
  pub send_max_data : Bool

unfoldable pub init : ℕ → ℕ → FlowCtrl
init local_max peer_max = record {
  peer_max_data = peer_max;
  data_sent = 0;
  local_max_data = local_max;
  data_recv = 0;
  max_data_next = local_max;
  send_max_data = false;
}

unfoldable pub can_send : FlowCtrl → ℕ → Bool
can_send fc len = leb (add64 fc.data_sent len) fc.peer_max_data

unfoldable pub on_send : FlowCtrl → ℕ → FlowCtrl
on_send fc len = record fc { data_sent = add64 fc.data_sent len }

unfoldable pub on_recv : FlowCtrl → ℕ → FlowCtrl
on_recv fc len = record fc { data_recv = add64 fc.data_recv len }

unfoldable pub on_consume : FlowCtrl → ℕ → FlowCtrl
on_consume fc len =
    let new_max = add64 fc.data_recv fc.local_max_data in
    if ltb (fc.local_max_data / 2) fc.data_recv && ltb fc.max_data_next new_max
    then record fc { max_data_next = new_max; send_max_data = true }
    else fc

unfoldable pub set_peer_max : FlowCtrl → ℕ → FlowCtrl
set_peer_max fc max_data =
    if ltb fc.peer_max_data max_data then record fc { peer_max_data = max_data } else fc

unfoldable pub should_update : FlowCtrl → Bool
should_update fc = fc.send_max_data

unfoldable pub get_update : FlowCtrl → FlowCtrl × ℕ
get_update fc =
    (record fc { send_max_data = false; local_max_data = fc.max_data_next }, fc.max_data_next)
