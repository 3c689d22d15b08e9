-- ===== src/Heartbeat.antt =====
-- The heartbeat engine: src/core/heartbeat.c and src/core/heartbeat_internal.h.
pub mod Silence
mod Tests
use nxp.Prelude.{ℕ, ◌+◌, Bool, true, false, not, ◌&&◌, ◌||◌, ltb, leb, ◌==◌, if◌then◌else◌}
use nxp.Prelude.Word.{u64_max, add64, add32}

abbrev pub miss_threshold : ℕ
miss_threshold = 3

pub record Heartbeat : Type 0 where
  pub interval_us : ℕ
  pub last_sent_us : ℕ
  pub last_recv_us : ℕ
  pub pending_timestamp : ℕ
  pub consecutive_misses : ℕ
  pub enabled : Bool
  pub send_heartbeat : Bool
  pub send_echo : Bool
  pub echo_timestamp : ℕ
  pub awaiting_response : Bool
  pub time_initialized : Bool

unfoldable pub init : ℕ → Heartbeat
init interval_us = record {
  interval_us = interval_us;
  last_sent_us = 0;
  last_recv_us = 0;
  pending_timestamp = 0;
  consecutive_misses = 0;
  enabled = ltb 0 interval_us;
  send_heartbeat = false;
  send_echo = false;
  echo_timestamp = 0;
  awaiting_response = false;
  time_initialized = false;
}

-- What a heartbeat that is due does.
unfoldable pub fire : Heartbeat → ℕ → Heartbeat
fire hb now_us = record hb {
  consecutive_misses =
      if hb.awaiting_response then add32 hb.consecutive_misses 1 else hb.consecutive_misses;
  send_heartbeat = true;
  pending_timestamp = now_us;
  awaiting_response = true;
  last_sent_us = now_us;
}

unfoldable pub check : Heartbeat → ℕ → Heartbeat
unfolding fire
check hb now_us =
    if not hb.enabled
    then hb
    else if not hb.time_initialized
    then fire (record hb { time_initialized = true }) now_us
    else if leb (add64 hb.last_sent_us hb.interval_us) now_us
    then fire hb now_us
    else hb

unfoldable pub on_recv : Heartbeat → ℕ → ℕ → Heartbeat
on_recv hb timestamp_us now_us = record hb {
  last_recv_us = now_us;
  send_echo = true;
  echo_timestamp = timestamp_us;
  consecutive_misses = 0;
  awaiting_response = false;
}

unfoldable pub on_echo : Heartbeat → ℕ → Heartbeat
on_echo hb echo_timestamp =
    if echo_timestamp == hb.pending_timestamp
    then record hb { consecutive_misses = 0; awaiting_response = false }
    else hb

unfoldable pub next_timeout : Heartbeat → ℕ
next_timeout hb = if hb.enabled then add64 hb.last_sent_us hb.interval_us else u64_max

unfoldable pub is_dead : Heartbeat → Bool
is_dead hb = if hb.enabled then leb miss_threshold hb.consecutive_misses else false

unfoldable pub has_pending : Heartbeat → Bool
has_pending hb = hb.send_heartbeat || hb.send_echo
