-- ===== src/Tests/Bridge.antt =====
-- Two calls of `AsyncBridge` in `src/esp32_utils/async_bridge.rs`, of which the first gets its reply.
use beet_esp.Base.{ℕ, ◌+◌, ◌≡◌, refl, none, [], ◌∷◌, All}
use beet_esp.AsyncBridge.{Channel, Signal, send, try_recv}
use beet_esp.AsyncBridge.Calls.{
  Exchange, call, next_call, wait, reply_send, System, Reach, accept, receive, reply, wake, here,
  next, start,
}
use beet_esp.AsyncBridge.Calls.Once.{places, places_lem, over-Works}
use beet_esp.AsyncBridge.Calls.Answered.{Answered, Reach-Answered}
use beet_esp.Tests.AsyncBridge.{signal, signal-SignalLaws, channel, channel-ChannelLaws}

abbrev calls : Channel (Exchange ℕ)
calls = channel (Exchange ℕ)

abbrev replies : Signal ℕ
replies = signal ℕ

abbrev Worker : ℕ → ℕ → Type 0
Worker x out = out ≡ x + 100

abbrev two_calls : System calls replies
two_calls = record {
  bridge = record { queue = record { input = 6; reply = 1 } ∷ []; signals = none ∷ none ∷ [] };
  tasks = [];
  waiting = (1, 6) ∷ [];
  over = (5, 105) ∷ [];
  accepted = 5 ∷ 6 ∷ [];
  answered = 0 ∷ [];
}

two_calls-Reach : Reach calls replies Worker (start calls replies) two_calls
unfolding call send next_call try_recv reply_send wait
two_calls-Reach =
    next
      (next (next (next (next here (accept 5 refl)) (accept 6 refl)) (receive refl))
        (reply [] (record { input = 5; reply = 0 }) [] 105 refl refl))
      (wake ((1, 6) ∷ []) 0 5 [] refl refl)

places_lem_example :
    places calls replies 32
      (channel-ChannelLaws (Exchange ℕ))
      (signal-SignalLaws ℕ)
      Worker
      two_calls
      1
    ≡ 1
places_lem_example =
    places_lem calls replies 32 (channel-ChannelLaws (Exchange ℕ)) (signal-SignalLaws ℕ) Worker 1
      two_calls-Reach

over-Works_example : All (λ (p : ℕ × ℕ). Worker p.0 p.1) two_calls.over
over-Works_example =
    over-Works calls replies 32 (channel-ChannelLaws (Exchange ℕ)) (signal-SignalLaws ℕ) Worker
      two_calls-Reach

Reach-Answered_example :
    Answered calls replies 32
      (channel-ChannelLaws (Exchange ℕ))
      (signal-SignalLaws ℕ)
      (λ x. x + 100)
      two_calls
Reach-Answered_example =
    Reach-Answered calls replies 32 (channel-ChannelLaws (Exchange ℕ)) (signal-SignalLaws ℕ)
      (λ x. x + 100) two_calls two_calls-Reach
