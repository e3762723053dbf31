-- ===== src/Device/Clock/Now.antt =====
-- `sync_once` and `sntp_now` of `src/esp32_utils/clock.rs`: the time that is read from a reply, and the
-- time that is told afterwards.
use beet_esp.Base.{
  ℕ, suc, ◌+◌, ◌-◌, ◌*◌, ◌/◌, ◌%◌, ◌^◌, ◌≤◌, ◌<◌, ◌≡◌, refl, sym, ◌∙◌, ap, ap₂, arith,
}
use beet_esp.Base.{true, false, some, List, [], ◌∷◌, ◌++◌, Bytes, length, get_or, All}
use mathlib.Core.Option
use beet_esp.Base.{get_elem?, be_word32, ltb, ◌==◌, Result, ok, err}
use beet_esp.Device.Clock.{
  ntp_unix_offset_secs, SntpError, reply, SntpNet, request, millis_of, parse_response, sync_once,
  Clock, store_anchor, sntp_now, clock_turn, clock_loop,
}

-- A failed sync.
abbrev pub IsFailed : ℕ × Result SntpError ℕ → Type 0
IsFailed (uptime, ok m) = ⊥
IsFailed (uptime, err e) = Unit

clock_loop-failed :
    (clock : Clock) (turns : List (ℕ × Result SntpError ℕ))
    → All IsFailed turns
    → clock_loop clock turns ≡ clock
unfolding clock_loop
clock_loop-failed clock [] h = refl
clock_loop-failed clock ((uptime, ok m) ∷ turns) (h, hs) = absurd h
clock_loop-failed clock ((uptime, err e) ∷ turns) (h, hs) = clock_loop-failed clock turns hs

clock_loop-append :
    (clock : Clock) (turns more : List (ℕ × Result SntpError ℕ))
    → clock_loop clock (turns ++ more) ≡ clock_loop (clock_loop clock turns) more
unfolding clock_loop
clock_loop-append clock [] more = refl
clock_loop-append clock ((uptime, outcome) ∷ turns) more =
    clock_loop-append (clock_turn clock uptime outcome).0 turns more

anchored :
    (clock : Clock) (m uptime later : ℕ)
    → m < 2 ^ 62
    → uptime ≤ later
    → later < 2 ^ 62
    → sntp_now (clock_turn clock uptime (ok m)).0 later ≡ m + (later - uptime)
unfolding sntp_now store_anchor
anchored clock m uptime later small past sane =
    let t : ((m % 2 ^ 64 + (2 ^ 64 - uptime % 2 ^ 64)) % 2 ^ 64 + later % 2 ^ 64) % 2 ^ 64
        ≡ m + (later - uptime) =
      omega arith in
    let positive : ltb (m + (later - uptime)) (2 ^ 63) ≡ true = ground arith in
    rw (t, positive) refl

-- The clock tells the time of the last sync that succeeded and what has passed since, to the
-- millisecond, whatever syncs succeeded before and failed after it.
pub sntp_now-clock_loop :
    (clock : Clock) (before failed : List (ℕ × Result SntpError ℕ)) (m uptime later : ℕ)
    → m < 2 ^ 62
    → uptime ≤ later
    → later < 2 ^ 62
    → All IsFailed failed
    → sntp_now (clock_loop clock (before ++ ((uptime, ok m) ∷ failed))) later ≡ m + (later - uptime)
unfolding clock_loop
sntp_now-clock_loop clock before failed m uptime later small past sane fails =
    ap (λ c. sntp_now c later)
      (clock_loop-append clock before ((uptime, ok m) ∷ failed)
        ∙ clock_loop-failed (clock_turn (clock_loop clock before) uptime (ok m)).0 failed fails)
    ∙ anchored (clock_loop clock before) m uptime later small past sane

get_elem?-header :
    (header rest : Bytes) (i : ℕ)
    → get_elem? (header ++ rest) (length header + i) ≡ get_elem? rest i
get_elem?-header [] rest i = ap (get_elem? rest) (omega arith)
get_elem?-header (x ∷ header) rest i =
    ap (get_elem? (x ∷ (header ++ rest))) (suc_plus (length header) i)
    ∙ get_elem?-header header rest i
  where
    suc_plus : (a b : ℕ) → suc a + b ≡ suc (a + b)
    suc_plus a b = omega arith

-- The fields of a transmit timestamp behind forty bytes.
get_or-header :
    (header rest : Bytes) (i j : ℕ)
    → length header ≡ 40
    → j ≡ 40 + i
    → get_or (header ++ rest) j 0 ≡ get_or rest i 0
get_or-header header rest i j size at =
    ap (λ o. Option.get_or o 0)
      (ap (get_elem? (header ++ rest)) (at ∙ ap (λ k. k + i) (sym size))
        ∙ get_elem?-header header rest i)

be_word32-same :
    {a b c d e f g h : ℕ} → a ≡ e → b ≡ f → c ≡ g → d ≡ h → be_word32 a b c d ≡ be_word32 e f g h
be_word32-same p q r s = omega arith

millis_of_lem :
    (secs frac : ℕ)
    → ntp_unix_offset_secs ≤ secs
    → millis_of secs frac ≡ ok (((secs - ntp_unix_offset_secs) * 2 ^ 32 + frac) * 1000 / 2 ^ 32)
millis_of_lem secs frac modern =
    let some_time : (secs == 0) ≡ false = ground arith in
    let late : ltb secs ntp_unix_offset_secs ≡ false = ground arith in
    rw (some_time, late) (ap ok (omega arith))

-- A whole reply with a transmit timestamp from 1970 on gives its time in milliseconds, rounded down.
pub sync_once-timestamp :
    {Addr : Type 0} (net : SntpNet Addr) (server : Bytes) (addr : Addr) (addrs : List Addr)
    (header : Bytes) (a b c d e f g h : ℕ)
    → net.dns_query server ≡ some (addr ∷ addrs)
    → net.bind ≡ true
    → net.send_to addr request ≡ true
    → length header ≡ 40
    → net.recv_from addr request ≡ reply 48 (header ++ (a ∷ b ∷ c ∷ d ∷ e ∷ f ∷ g ∷ h ∷ []))
    → ntp_unix_offset_secs ≤ be_word32 a b c d
    → sync_once net server
      ≡ ok (
          ((be_word32 a b c d - ntp_unix_offset_secs) * 2 ^ 32 + be_word32 e f g h) * 1000 / 2 ^ 32)
unfolding sync_once parse_response
sync_once-timestamp net server addr addrs header a b c d e f g h asked bound sent size got modern =
    let rest = a ∷ b ∷ c ∷ d ∷ e ∷ f ∷ g ∷ h ∷ [] in
    let at : (i j : ℕ) → j ≡ 40 + i → get_or (header ++ rest) j 0 ≡ get_or rest i 0 =
      λ i j eq. get_or-header header rest i j size eq in
    rw (asked, bound, sent, got)
      (ap₂ millis_of (be_word32-same (at 0 40 refl) (at 1 41 refl) (at 2 42 refl) (at 3 43 refl))
          (be_word32-same (at 4 44 refl) (at 5 45 refl) (at 6 46 refl) (at 7 47 refl))
        ∙ millis_of_lem (be_word32 a b c d) (be_word32 e f g h) modern)
