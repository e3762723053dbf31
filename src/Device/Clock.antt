-- ===== src/Device/Clock.antt =====
-- `src/esp32_utils/clock.rs`. An `i64` is its 64 bits. Times are in milliseconds; the network is a
-- parameter.
use beet_esp.Base.{ℕ, ◌+◌, ◌-◌, ◌*◌, ◌/◌, ◌%◌, ◌^◌, Bool, true, false, Option, none, some}
use beet_esp.Base.{List, [], ◌∷◌, Bytes, replicate, get_or, be_word32, ltb, ◌==◌, if◌then◌else◌}
use beet_esp.Base.{Result, ok, err, and_then}
pub mod Now

-- `NTP_UNIX_OFFSET_SECS`, `RETRY_DELAY` and `RESYNC_INTERVAL`.
abbrev pub ntp_unix_offset_secs : ℕ
ntp_unix_offset_secs = 2208988800

abbrev pub retry_delay : ℕ
retry_delay = 10000

abbrev pub resync_interval : ℕ
resync_interval = 3600000

pub data SntpError : Type 0 where
  dns_failed : SntpError
  no_dns_results : SntpError
  bind_failed : SntpError
  send_failed : SntpError
  receive_failed : SntpError
  timed_out : SntpError
  short_response : SntpError
  zero_timestamp : SntpError
  before_epoch : SntpError

-- The request: its first byte packs the version and the mode.
abbrev pub request : Bytes
request = 0x23 ∷ replicate 47 0

-- How the receiving ends.
pub data Received : Type 0 where
  late : Received
  broken : Received
  reply : ℕ → Bytes → Received

-- `Stack::dns_query`, `UdpSocket::bind`, `send_to` and `recv_from` within the time-out; the reply
-- depends on the address and on what is sent.
pub record SntpNet (Addr : Type 0) : Type 0 where
  pub dns_query : Bytes → Option (List Addr)
  pub bind : Bool
  pub send_to : Addr → Bytes → Bool
  pub recv_from : Addr → Bytes → Received

abbrev pub millis_of : ℕ → ℕ → Result SntpError ℕ
millis_of secs frac =
    if secs == 0
    then err zero_timestamp
    else if ltb secs ntp_unix_offset_secs
    then err before_epoch
    else ok ((secs - ntp_unix_offset_secs) * 1000 + frac * 1000 / 2 ^ 32)

-- The transmit timestamp of `n` bytes received in the 48 of the buffer.
unfoldable pub parse_response : ℕ → Bytes → Result SntpError ℕ
parse_response n response =
    if ltb n 48
    then err short_response
    else millis_of
        (be_word32 (get_or response 40 0) (get_or response 41 0) (get_or response 42 0)
          (get_or response 43 0))
        (be_word32 (get_or response 44 0) (get_or response 45 0) (get_or response 46 0)
          (get_or response 47 0))

abbrev pub on_received : Received → Result SntpError ℕ
on_received late = err timed_out
on_received broken = err receive_failed
on_received (reply n response) = parse_response n response

module _ {Addr : Type 0} (net : SntpNet Addr) where
  abbrev pub on_address : Option (List Addr) → Result SntpError ℕ
  on_address none = err dns_failed
  on_address (some []) = err no_dns_results
  on_address (some (addr ∷ addrs)) =
      if net.bind
      then (if net.send_to addr request
          then on_received (net.recv_from addr request)
          else err send_failed)
      else err bind_failed

  unfoldable pub sync_once : Bytes → Result SntpError ℕ
  sync_once server = on_address (net.dns_query server)

-- The anchor, whether a sync has been, and whether the source of `now` has been handed over.
pub record Clock : Type 0 where
  pub boot : ℕ
  pub synced : Bool
  pub handed : Bool

abbrev pub new : Clock
new = record { boot = 0; synced = false; handed = false }

unfoldable pub store_anchor : Clock → ℕ → Clock
store_anchor clock boot = record clock { boot = boot }

-- `(boot + uptime).max(0) as u64`.
unfoldable pub sntp_now : Clock → ℕ → ℕ
sntp_now clock uptime =
    let t = (clock.boot + uptime % 2 ^ 64) % 2 ^ 64 in if ltb t (2 ^ 63) then t else 0

abbrev pub synced_at : Clock → Clock
synced_at clock = record clock {
  synced = true;
  handed = if clock.synced then clock.handed else true;
}

-- A turn of `clock_loop` at an uptime: the clock, and the time until the next turn.
abbrev pub clock_turn : Clock → ℕ → Result SntpError ℕ → Clock × ℕ
clock_turn clock uptime (ok unix_millis) = (
  synced_at (store_anchor clock ((unix_millis % 2 ^ 64 + (2 ^ 64 - uptime % 2 ^ 64)) % 2 ^ 64)),
  resync_interval,
)
clock_turn clock uptime (err e) = (clock, retry_delay)

-- The turns of the loop, each with its uptime and the outcome of `sync_once`.
unfoldable pub clock_loop : Clock → List (ℕ × Result SntpError ℕ) → Clock
clock_loop clock [] = clock
clock_loop clock ((uptime, outcome) ∷ turns) = clock_loop (clock_turn clock uptime outcome).0 turns
