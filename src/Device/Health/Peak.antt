-- ===== src/Device/Health/Peak.antt =====
-- `paint_stack` and `stack_usage` of `src/esp32_utils/health.rs`: the high-water mark.
use beet_esp.Base.{ℕ, zero, suc, ◌+◌, ◌-◌, ◌*◌, ◌^◌, ◌≤◌, ◌<◌, ◌≡◌, ◌≢◌, refl, ◌∙◌, ap}
use beet_esp.Base.{arith, true, false, inl, inr, Bool-cases, ltb, leb, ◌==◌, ==_iff}
use beet_esp.Device.Health.{
  sentinel, guard_gap, paint_margin, Memory, write_word, align, scan_lo, paint_loop, paint_stack,
  scan_loop, stack_usage,
}

-- Painting does not reach below its start.
paint_loop-below :
    (fuel p end : ℕ) (mem : Memory) (q : ℕ) → q < p → paint_loop fuel p end mem q ≡ mem q
unfolding paint_loop
paint_loop-below zero p end mem q less = refl
paint_loop-below (suc fuel) p end mem q less = elim (Bool-cases (ltb p end)) [
  | inl e ↦
      let other : (q == p) ≡ false = ground arith in
      rw e (
        paint_loop-below fuel (p + 4) end (write_word mem p sentinel) q (omega arith)
        ∙ rw other refl)
  | inr e ↦ rw e refl
]

-- Every word from the start to the end is painted.
paint_loop-sentinel :
    (fuel p end k : ℕ) (mem : Memory)
    → p + 4 * k < end
    → k < fuel
    → paint_loop fuel p end mem (p + 4 * k) ≡ sentinel
unfolding paint_loop
paint_loop-sentinel zero p end k mem inside less = absurd (omega arith)
paint_loop-sentinel (suc fuel) p end zero mem inside less =
    let e : ltb p end ≡ true = ground arith in
    let same : (p == p) ≡ true = ground arith in
    let at : p + 4 * 0 ≡ p = omega arith in
    rw (e, at)
      (paint_loop-below fuel (p + 4) end (write_word mem p sentinel) p (omega arith) ∙ rw same refl)
paint_loop-sentinel (suc fuel) p end (suc k) mem inside less =
    let e : ltb p end ≡ true = ground arith in
    let at : p + 4 * suc k ≡ p + 4 + 4 * k = omega arith in
    rw (e, at)
      (paint_loop-sentinel fuel (p + 4) end k (write_word mem p sentinel) (omega arith)
        (omega arith))

-- The scan stops at the first word that is not the sentinel.
scan_loop-stops :
    (fuel p end k : ℕ) (mem : Memory) (untouched : ℕ)
    → ((j : ℕ) → j < k → mem (p + 4 * j) ≡ sentinel)
    → mem (p + 4 * k) ≢ sentinel
    → p + 4 * k < end
    → k < fuel
    → scan_loop fuel p end mem untouched ≡ untouched + 4 * k
unfolding scan_loop
scan_loop-stops zero p end k mem untouched clean dirty inside less = absurd (omega arith)
scan_loop-stops (suc fuel) p end zero mem untouched clean dirty inside less =
    let e : ltb p end ≡ true = ground arith in
    let at : p + 4 * 0 ≡ p = omega arith in
    let here : mem p ≢ sentinel = λ same. dirty (ap mem at ∙ same) in
    let d : (mem p == sentinel) ≡ false = ground arith in rw (e, d) (omega arith)
scan_loop-stops (suc fuel) p end (suc k) mem untouched clean dirty inside less =
    let e : ltb p end ≡ true = ground arith in
    let first : mem p ≡ sentinel = ap mem (omega arith) ∙ clean 0 (omega arith) in
    let d : (mem p == sentinel) ≡ true = (==_iff _ _).1 first in
    rw (e, d)
      (scan_loop-stops fuel (p + 4) end k mem (untouched + 4)
          (λ j l. ap mem (omega arith) ∙ clean (suc j) (omega arith))
          (λ same. dirty (ap mem (omega arith) ∙ same)) (omega arith) (omega arith)
        ∙ omega arith)

-- After the stack was painted below `sp`, and written no deeper than the word at `deepest`, which is in
-- the painted region and holds no sentinel, the usage is that of a stack that reached down to it: the
-- peak is what lies above, the headroom what lies below.
pub stack_usage-peak :
    (lo hi sp k : ℕ) (mem after : Memory)
    → lo + guard_gap + 3 < 2 ^ 32
    → scan_lo lo + 4 * k < align (sp - paint_margin)
    → sp ≤ hi
    → ((q : ℕ) → q < scan_lo lo + 4 * k → after q ≡ paint_stack lo sp mem q)
    → after (scan_lo lo + 4 * k) ≢ sentinel
    → let deepest = scan_lo lo + 4 * k in
      (stack_usage lo hi after ≡ (hi - lo, hi - deepest, deepest - lo))
      × ((hi - deepest) + (deepest - lo) ≡ hi - lo)
      × (guard_gap ≤ deepest - lo)
unfolding stack_usage paint_stack
stack_usage-peak lo hi sp k mem after fits inside below kept dirty =
    let from = scan_lo lo in
    let end = align (sp - paint_margin) in
    let some_room : leb end from ≡ false = ground arith in
    let painted : (j : ℕ) → j < k → after (from + 4 * j) ≡ sentinel = λ j l.
      kept (from + 4 * j) (omega arith)
      ∙ rw some_room
          (paint_loop-sentinel (end - from) from end j mem (omega arith) (omega arith)) in
    let stops : scan_loop (hi - from) from hi after 0 ≡ 4 * k =
      scan_loop-stops (hi - from) from hi k after 0 painted dirty (omega arith) (omega arith)
      ∙ omega arith in
    (rw stops refl, omega arith, omega arith)
