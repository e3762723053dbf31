-- ===== src/Device/Health.antt =====
-- `src/esp32_utils/health.rs`: the painting of the stack and its high-water mark, the snapshots and the
-- periodic report. The memory is a function from the addresses of words; `lo` and `hi` are the linker's
-- `_stack_end_cpu0` and `_stack_start_cpu0`. A `usize` has 32 bits.
use beet_esp.Base.{
  ℕ, zero, suc, ◌+◌, ◌-◌, ◌*◌, ◌/◌, ◌%◌, ◌^◌, Bool, true, false, not, Option, none, some,
}
use beet_esp.Base.{ltb, leb, ◌==◌, if◌then◌else◌}
pub mod Peak
pub mod Streak

-- `SENTINEL`, `GUARD_GAP`, `PAINT_MARGIN`, `STACK_HEADROOM_WARN`, `HEAP_GROWTH_NOISE` and `LEAK_STREAK`.
abbrev pub sentinel : ℕ
sentinel = 0x5a5a5a5a

abbrev pub guard_gap : ℕ
guard_gap = 256

abbrev pub paint_margin : ℕ
paint_margin = 1024

abbrev pub stack_headroom_warn : ℕ
stack_headroom_warn = 2048

abbrev pub heap_growth_noise : ℕ
heap_growth_noise = 256

abbrev pub leak_streak : ℕ
leak_streak = 3

-- `REPORT_SECS`, in microseconds.
abbrev pub report_micros : ℕ
report_micros = 2000000

abbrev pub Memory : Type 0
Memory = ℕ → ℕ

abbrev pub write_word : Memory → ℕ → ℕ → Memory
write_word mem p v = λ q. if q == p then v else mem q

-- `& !3`.
abbrev pub align : ℕ → ℕ
align a = a / 4 * 4

-- Above the guard.
abbrev pub scan_lo : ℕ → ℕ
scan_lo lo = align ((lo + guard_gap + 3) % 2 ^ 32)

-- `while p < end`, on fuel.
unfoldable pub paint_loop : ℕ → ℕ → ℕ → Memory → Memory
paint_loop zero p end mem = mem
paint_loop (suc fuel) p end mem =
    let rest = paint_loop fuel (p + 4) end (write_word mem p sentinel) in
    if ltb p end then rest else mem

-- `sp` is the address of the local `probe`.
unfoldable pub paint_stack : ℕ → ℕ → Memory → Memory
paint_stack lo sp mem =
    let from = scan_lo lo in
    let end = align (sp - paint_margin) in
    if leb end from then mem else paint_loop (end - from) from end mem

-- `while p < end` of `stack_usage`, on fuel: `untouched`.
unfoldable pub scan_loop : ℕ → ℕ → ℕ → Memory → ℕ → ℕ
scan_loop zero p end mem untouched = untouched
scan_loop (suc fuel) p end mem untouched =
    let rest = scan_loop fuel (p + 4) end mem (untouched + 4) in
    if ltb p end then (if not (mem p == sentinel) then untouched else rest) else untouched

-- The total, the peak and the headroom.
unfoldable pub stack_usage : ℕ → ℕ → Memory → ℕ × ℕ × ℕ
stack_usage lo hi mem =
    let peak_sp = scan_lo lo + scan_loop (hi - scan_lo lo) (scan_lo lo) hi mem 0 in
    (hi - lo, hi - peak_sp, peak_sp - lo)

-- `esp_alloc::HeapStats`.
pub record HeapStats : Type 0 where
  pub size : ℕ
  pub current_usage : ℕ
  pub max_usage : ℕ
  pub total_allocated : ℕ
  pub total_freed : ℕ

pub record MemSnapshot : Type 0 where
  pub heap_size : ℕ
  pub heap_used : ℕ
  pub heap_free : ℕ
  pub heap_max_used : ℕ
  pub heap_total_alloc : ℕ
  pub heap_total_freed : ℕ
  pub stack_total : ℕ
  pub stack_peak_used : ℕ
  pub stack_headroom : ℕ

unfoldable pub snapshot : HeapStats → ℕ → ℕ → Memory → MemSnapshot
snapshot s lo hi mem =
    let usage = stack_usage lo hi mem in
    record {
      heap_size = s.size;
      heap_used = s.current_usage;
      heap_free = s.size - s.current_usage;
      heap_max_used = s.max_usage;
      heap_total_alloc = s.total_allocated;
      heap_total_freed = s.total_freed;
      stack_total = usage.0;
      stack_peak_used = usage.1;
      stack_headroom = usage.2;
    }

-- `HealthState`, and the `Local` of `report`.
pub record HealthState : Type 0 where
  pub prestartup : Option MemSnapshot
  pub last : Option MemSnapshot
  pub reports : ℕ
  pub growth_streak : ℕ
  pub last_tick : Option ℕ

abbrev pub default : HealthState
default = record {
  prestartup = none;
  last = none;
  reports = 0;
  growth_streak = 0;
  last_tick = none;
}

unfoldable pub capture_baseline : HealthState → MemSnapshot → HealthState
capture_baseline state pre = record state { prestartup = some pre; last = some pre }

-- Whether a report warns of a leak and of low headroom.
pub record Warnings : Type 0 where
  pub leak : Bool
  pub headroom : Bool

abbrev pub is_due : Option ℕ → ℕ → Bool
is_due none now = true
is_due (some t) now = leb report_micros (now - t)

-- The streak of growth after a snapshot: `d_last > HEAP_GROWTH_NOISE`, the difference being signed.
abbrev pub next_streak : Option MemSnapshot → MemSnapshot → ℕ → ℕ
next_streak none snap streak = streak
next_streak (some last) snap streak =
    if ltb (last.heap_used + heap_growth_noise) snap.heap_used then (streak + 1) % 2 ^ 32 else 0

abbrev pub leak_warning : Option MemSnapshot → ℕ → Bool
leak_warning none streak = false
leak_warning (some last) streak = leb leak_streak streak

-- The state and, if a report was due, its warnings.
unfoldable pub report : HealthState → ℕ → MemSnapshot → HealthState × Option Warnings
report state now snap =
    let streak = next_streak state.last snap state.growth_streak in
    if not (is_due state.last_tick now) then (state, none) else (
      record state {
        last = some snap;
        reports = (state.reports + 1) % 2 ^ 32;
        growth_streak = streak;
        last_tick = some now;
      },
      some (record {
        leak = leak_warning state.last streak;
        headroom = ltb snap.stack_headroom stack_headroom_warn;
      }),
    )
