-- ===== src/Ucpack/Decoder.antt =====
-- `Decoder` of `src/alvik/ucpack.rs`: the ring of received bytes in an array of 256, and the loop of
-- `pop`. A `none` is a panic (an index or a range out of bounds), or fuel that ran out.
pub mod Buffer
pub mod Rounds
pub mod Refines
pub mod Pops
use beet_esp.Base.{
  ℕ, zero, suc, ◌+◌, ◌-◌, ◌%◌, ◌^◌, Bool, true, false, not, ◌||◌, Option, none, some,
}
use beet_esp.Base.{List, [], ◌∷◌, Bytes, get_elem?, replicate, store, slice, copy_into, copy_within}
use beet_esp.Base.{◌>>=◌, ltb, ◌==◌, if◌then◌else◌}
use beet_esp.Ucpack.Crc.{crc8}
use beet_esp.Ucpack.Frame.{start_byte, end_byte, payload_max, Frame}

-- `CAP`.
abbrev pub capacity : ℕ
capacity = 256

pub record Decoder : Type 0 where
  pub buf : Bytes
  pub len : ℕ

unfoldable pub new : Decoder
new = record { buf = replicate capacity 0; len = 0 }

pub drop_front : Decoder → ℕ → Option Decoder
drop_front d n = do buf ← copy_within d.buf n d.len; some (record { buf = buf; len = d.len - n })

unfoldable pub push : Decoder → ℕ → Option Decoder
unfolding drop_front
push d byte = do
  e ← if d.len == capacity then drop_front d 1 else some d
  buf ← store e.buf e.len byte
  some (record { buf = buf; len = e.len + 1 })

unfoldable pub extend : Decoder → Bytes → Option Decoder
unfolding push
extend d [] = some d
extend d (byte ∷ bytes) = do e ← push d byte; extend e bytes

-- What a round of the loop of `pop` does: `continue` with a new state, or return.
pub data Round : Type 0 where
  again : Decoder → Round
  finish : Option Frame → Decoder → Round

-- `self.drop_front(1); continue`.
resync : Decoder → Option Round
unfolding drop_front
resync d = do e ← drop_front d 1; some (again e)

-- The frame behind a length field that is plausible, all of whose bytes have arrived.
take_frame : Decoder → ℕ → ℕ → Option Round
unfolding resync drop_front
take_frame d len_field payload_len = do
  ending ← get_elem? d.buf (len_field + 2)
  sum ← get_elem? d.buf (len_field + 3)
  covered ← slice d.buf 2 (2 + len_field)
  if not (ending == end_byte) || not (sum == crc8 covered) then resync d else (do
    bytes ← slice d.buf 3 (3 + payload_len)
    payload ← copy_into (replicate payload_max 0) 0 bytes
    code ← get_elem? d.buf 2
    e ← drop_front d (len_field + 4)
    some (finish (some (record { code = code; payload = payload; len = payload_len })) e))

pub round : Decoder → Option Round
unfolding resync take_frame
round d = if d.len == 0 then some (finish none d) else (do
  first ← get_elem? d.buf 0
  if not (first == start_byte) then resync d else if ltb d.len 2 then some (finish none d) else (do
    len_field ← get_elem? d.buf 1
    -- `usize` has 32 bits, and the subtraction wraps.
    let payload_len = (len_field + 2 ^ 32 - 1) % 2 ^ 32
    if len_field == 0 || ltb payload_max payload_len
        then resync d
        else if ltb d.len (len_field + 4)
        then some (finish none d)
        else take_frame d len_field payload_len))

-- The loop, on fuel: a round that goes on has dropped a byte.
pop_loop : ℕ → Decoder → Option (Option Frame × Decoder)
unfolding round
pop_loop zero d = none
pop_loop (suc fuel) d = do
  r ← round d
  elim r [ again e ↦ pop_loop fuel e | finish frame e ↦ some (frame, e) ]

unfoldable pub pop : Decoder → Option (Option Frame × Decoder)
unfolding pop_loop
pop d = pop_loop (suc d.len) d

-- `while let Some(frame) = decoder.pop()`, on fuel.
unfoldable pub drain_loop : ℕ → Decoder → Option (List Frame × Decoder)
unfolding pop
drain_loop zero d = none
drain_loop (suc fuel) d = do
  (popped, e) ← pop d
  elim popped [
    | none ↦ some ([], e)
    | some frame ↦ do (frames, last) ← drain_loop fuel e; some (frame ∷ frames, last)
  ]

unfoldable pub drain : Decoder → Option (List Frame × Decoder)
unfolding drain_loop
drain d = drain_loop (suc d.len) d
