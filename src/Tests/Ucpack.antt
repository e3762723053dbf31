-- ===== src/Tests/Ucpack.antt =====
-- The codec of `src/alvik/ucpack.rs` on concrete frames.
use beet_esp.Base.{ℕ, ◌<◌, ◌≡◌, refl, ◌∙◌, ap, arith, Option, some, [], ◌∷◌, ◌++◌, Bytes, IsBytes}
use beet_esp.Base.{replicate}
use beet_esp.Ucpack.Crc.{crc8, crc_onto, crc_bits, crc_round, crc8-lt, crc8_detects}
use beet_esp.Ucpack.Frame.{start_byte, Frame}
use beet_esp.Ucpack.Encoder
use beet_esp.Ucpack.Encoder.{Encoder, IsEncoder, new-IsEncoder, frame, frame_lem, wire}
use beet_esp.Ucpack.Stream.{next, to_frame}
use beet_esp.Ucpack.Decoder
use beet_esp.Ucpack.Decoder.{Decoder, capacity, extend, pop, drain}
use beet_esp.Ucpack.Decoder.Buffer.{Holds, new-Holds, contents, extend_lem, grow_all}
use beet_esp.Ucpack.Decoder.Refines.{Drained, pop_lem, drain_lem}
use beet_esp.Ucpack.Link.{
  Message, IsMessage, next-wire, Transmits, pop-extend-frame, Chunked, drain-chunks,
}
use beet_esp.Ucpack.Sound.{
  Popped, pop-Popped, corrupted, pop-corrupted, Delivers, drain-extend-frames,
}

-- The check value of CRC-8/MAXIM.
crc8_check : crc8 (0x31 ∷ 0x32 ∷ 0x33 ∷ 0x34 ∷ 0x35 ∷ 0x36 ∷ 0x37 ∷ 0x38 ∷ 0x39 ∷ []) ≡ 0xA1
unfolding crc8 crc_onto crc_bits crc_round
crc8_check = refl

crc8_detects_example : ◌≡◌ {A = ℕ} 3 3
crc8_detects_example =
    crc8_detects (1 ∷ []) (2 ∷ []) 3 3 (omega arith, tt) (omega arith, tt) (omega arith)
      (omega arith) refl

abbrev servo : Message
servo = record { code = b'S'; payload = 90 ∷ 45 ∷ [] }

servo-IsMessage : IsMessage servo
servo-IsMessage = record {
  fits = omega arith;
  code_byte = omega arith;
  bytes = (omega arith, (omega arith, tt));
}

-- A decoder that has received the frame and nothing else.
abbrev received : Decoder
received = record { buf = wire b'S' (90 ∷ 45 ∷ []) ++ replicate 249 0; len = 7 }

abbrev sent : Bytes
sent = wire b'S' (90 ∷ 45 ∷ [])

received-Holds : Holds received sent
received-Holds = record { ok = record { full = refl; within = omega arith }; holds = refl }

sum_byte : crc8 (b'S' ∷ 90 ∷ 45 ∷ []) < 256
sum_byte = crc8-lt (b'S' ∷ 90 ∷ 45 ∷ []) (omega arith, (omega arith, (omega arith, tt)))

sent-IsBytes : IsBytes sent
sent-IsBytes = (
  omega arith,
  (omega arith, (omega arith, (omega arith, (omega arith, (omega arith, (sum_byte, tt)))))),
)

extend_lem_example :
    (e : Decoder) × (extend received (1 ∷ 2 ∷ []) ≡ some e) × Holds e (grow_all sent (1 ∷ 2 ∷ []))
extend_lem_example = extend_lem received sent (1 ∷ 2 ∷ []) received-Holds

pop_lem_example : (e : Decoder) × (pop received ≡ some ((next sent).0, e)) × Holds e (next sent).1
pop_lem_example = pop_lem received sent received-Holds sent-IsBytes

drain_lem_example : Drained (drain received) sent
drain_lem_example = drain_lem received sent received-Holds sent-IsBytes

pop-extend-frame_example : Transmits Encoder.new Decoder.new (1 ∷ []) servo
pop-extend-frame_example =
    pop-extend-frame Encoder.new Decoder.new (1 ∷ []) servo new-IsEncoder new-Holds servo-IsMessage
      (omega arith, tt) (omega arith, tt) (omega arith)

drain-extend-frames_example : Delivers Encoder.new Decoder.new (1 ∷ []) (servo ∷ servo ∷ [])
drain-extend-frames_example =
    drain-extend-frames Encoder.new Decoder.new (1 ∷ []) (servo ∷ servo ∷ []) new-IsEncoder
      new-Holds (servo-IsMessage, (servo-IsMessage, tt)) (omega arith, tt) (omega arith, tt)
      (omega arith)

drain-chunks_example : Chunked received (start_byte ∷ 3 ∷ []) (b'S' ∷ 1 ∷ [])
drain-chunks_example =
    drain-chunks received sent (start_byte ∷ 3 ∷ []) (b'S' ∷ 1 ∷ []) received-Holds sent-IsBytes
      (omega arith, (omega arith, tt)) (omega arith, (omega arith, tt)) (omega arith)

popped : (e : Decoder) × (pop received ≡ some (some (to_frame b'S' (90 ∷ 45 ∷ [])), e))
popped =
    let (e, returns, _) = pop_lem received sent received-Holds sent-IsBytes in
    (
      e,
      returns
          ∙ ap (λ (t : Option Frame × Bytes). some (t.0, e))
              (next-wire b'S' (90 ∷ 45 ∷ []) [] (omega arith)),
    )

pop-Popped_example : Popped sent (to_frame b'S' (90 ∷ 45 ∷ [])) (contents popped.0)
pop-Popped_example =
    pop-Popped received popped.0 sent (to_frame b'S' (90 ∷ 45 ∷ [])) received-Holds sent-IsBytes
      popped.1

-- The frame with its second byte of payload changed.
abbrev broken : Bytes
broken = corrupted b'S' (90 ∷ 45 ∷ []) ((b'S' ∷ 90 ∷ []) ++ (44 ∷ [])) []

abbrev holding : Decoder
holding = record { buf = start_byte ∷ (broken ++ replicate 249 0); len = 7 }

holding-Holds : Holds holding (start_byte ∷ broken)
holding-Holds = record { ok = record { full = refl; within = omega arith }; holds = refl }

pop-corrupted_example :
    (e : Decoder) × (pop holding ≡ some ((next broken).0, e)) × Holds e (next broken).1
pop-corrupted_example =
    pop-corrupted holding b'S' (90 ∷ 45 ∷ []) (b'S' ∷ 90 ∷ []) [] [] 45 44 (omega arith) refl
      (omega arith) (omega arith) (omega arith) (omega arith, (omega arith, tt)) tt holding-Holds
      (omega arith, (omega arith, (omega arith, (omega arith, (omega arith, (sum_byte, tt))))))
