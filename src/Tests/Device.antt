-- ===== src/Tests/Device.antt =====
-- The clock, the health report and the LED of the device.
use beet_esp.Base.{ℕ, ◌+◌, ◌-◌, ◌≤◌, ◌≡◌, refl, ap, arith, true, some}
use beet_esp.Base.{List, [], ◌∷◌, ◌++◌, replicate, ltb, ltb_iff, if◌then◌else◌, ok, err}
use beet_esp.Device.Clock
use beet_esp.Device.Clock.{SntpNet, timed_out, reply, sync_once, clock_loop, sntp_now}
use beet_esp.Device.Clock.Now.{sync_once-timestamp, sntp_now-clock_loop}
use beet_esp.Device.Health.{Memory, MemSnapshot, paint_stack, stack_usage, report}
use beet_esp.Device.Health.Peak.{stack_usage-peak}
use beet_esp.Device.Health.Streak.{reported, report-warnings}
use beet_esp.Device.Led.{Srgb, PulseCodes, Transmitted, failed, new}
use beet_esp.Device.Led.Pulses.{PulseLaws}

-- A server that says 2020-01-01, half a second past midnight.
abbrev server : SntpNet ℕ
server = record {
  dns_query = λ name. some (9 ∷ []);
  bind = true;
  send_to = λ addr bytes. true;
  recv_from =
      λ addr bytes. reply 48 (replicate 40 0 ++ (225 ∷ 182 ∷ 95 ∷ 128 ∷ 128 ∷ 0 ∷ 0 ∷ 0 ∷ []));
}

sync_once-timestamp_example : sync_once server [] ≡ ok 1577836800500
sync_once-timestamp_example =
    sync_once-timestamp server [] 9 [] (replicate 40 0) 225 182 95 128 128 0 0 0 refl refl refl refl
      refl (omega arith)

-- A sync at one second, a failed one an hour later, the time another second later.
sntp_now-clock_loop_example :
    sntp_now
      (clock_loop Clock.new ([] ++ ((1000, ok 1577836800500) ∷ (3601000, err timed_out) ∷ [])))
      3602000
    ≡ 1577836800500 + (3602000 - 1000)
sntp_now-clock_loop_example =
    sntp_now-clock_loop Clock.new [] ((3601000, err timed_out) ∷ []) 1577836800500 1000 3602000
      (omega arith) (omega arith) (omega arith) (tt, tt)

-- A stack of 4096 bytes, painted from 7680, of which four words above the guard stay untouched.
abbrev used : Memory
used = λ q. if ltb q 4368 then paint_stack 4096 7680 (λ a. 0) q else 1

stack_usage-peak_example :
    (stack_usage 4096 8192 used ≡ (4096, 3824, 272)) × (3824 + 272 ≡ 4096) × (256 ≤ 272)
stack_usage-peak_example =
    stack_usage-peak 4096 8192 7680 4 (λ a. 0) used (omega arith) (omega arith) (omega arith)
      (λ q below.
        ap (λ b. if b then paint_stack 4096 7680 (λ a. 0) q else 1) ((ltb_iff q 4368).1 below))
      (λ e. omega arith)

abbrev snap : ℕ → MemSnapshot
snap n = record {
  heap_size = 100000;
  heap_used = n;
  heap_free = 100000 - n;
  heap_max_used = n;
  heap_total_alloc = n;
  heap_total_freed = 0;
  stack_total = 4096;
  stack_peak_used = 3000;
  stack_headroom = 1096;
}

report-warnings_example :
    (report
      (reported (snap 1000) ((4000000, snap 5000) ∷ (2000000, snap 3000) ∷ []))
      6000000
      (snap 7000)).1
    ≡ some (record { leak = true; headroom = true })
report-warnings_example =
    report-warnings (snap 1000) 6000000 (snap 7000)
      ((4000000, snap 5000) ∷ (2000000, snap 3000) ∷ []) (omega arith, (omega arith, tt))
      (omega arith)

-- A code is the length of its first pulse.
abbrev lengths : PulseCodes ℕ
lengths = record { new = λ a n b m. n; end_marker = 0 }

abbrev lengths-PulseLaws : PulseLaws lengths
lengths-PulseLaws = record { length1 = λ c. c; length1-new = λ a b n m. refl }

abbrev wire : ℕ → List ℕ → Transmitted ℕ
wire c codes = failed c

abbrev orange : Srgb
orange = record { red = 255; green = 128; blue = 0 }
