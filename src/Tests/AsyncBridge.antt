-- ===== src/Tests/AsyncBridge.antt =====
-- A signal that is the pending value, and a channel that is the list of what was sent.
use beet_esp.Base.{
  ◌≡◌, refl, arith, true, false, Option, none, some, List, [], ◌∷◌, ◌++◌, length, ltb,
  if◌then◌else◌,
}
use beet_esp.AsyncBridge.{Signal, Channel, full}
use beet_esp.AsyncBridge.Pipes.{SignalLaws, ChannelLaws, first_of, tail_of}

abbrev pub signal : (A : Type 0) → Signal A
signal A = record {
  State = Option A;
  new = none;
  signal = λ st a. some a;
  try_take = λ st. (none, st);
}

abbrev pub signal-SignalLaws : (A : Type 0) → SignalLaws (signal A)
signal-SignalLaws A = record {
  pending = λ st. st;
  pending-new = refl;
  pending-signal = λ st a. refl;
  try_take-pending = λ st. refl;
  pending-try_take = λ st. refl;
}

-- Of capacity 32.
abbrev pub channel : (A : Type 0) → Channel A
channel A = record {
  State = List A;
  new = [];
  try_send = λ st a. if ltb (length st) 32 then (st ++ (a ∷ []), none) else (st, some (full a));
  try_receive = λ st. (tail_of st, first_of st);
}

abbrev pub channel-ChannelLaws : (A : Type 0) → ChannelLaws (channel A) 32
channel-ChannelLaws A = record {
  contents = λ st. st;
  contents-new = refl;
  accepts = λ st a h. let room : ltb (length st) 32 ≡ true = ground arith in (rw room, rw room);
  refuses = λ st a h.
      let none_left : ltb (length st) 32 ≡ false = ground arith in (rw none_left, rw none_left);
  try_receive-first = λ st. refl;
  contents-try_receive = λ st. refl;
}
