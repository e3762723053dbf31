-- ===== src/Ucpack/Decoder/Buffer.antt =====
-- The bytes that the decoder holds, and what the operations on its array do to them.
use mathlib.Core.List.{append-nil, append_assoc}
use beet_esp.Base.{take-take, take-set, drop-take, false}
use beet_esp.Base.{ℕ, suc, ◌+◌, ◌-◌, ◌≤◌, ◌<◌, ◌≡◌, refl, sym, ◌∙◌, ap, arith}
use beet_esp.Base.{some, [], ◌∷◌, ◌++◌, Bytes, length, take, drop, get_elem?}
use beet_esp.Base.{store, slice, copy_within, ◌==◌, if◌then◌else◌, length-append}
use beet_esp.Base.{length-take, length-drop, take-append_self}
use beet_esp.Base.{get_elem?-take, set, length-set}
use beet_esp.Base.{length-replicate, Bool-cases, inl, inr}
use beet_esp.Ucpack.Decoder.{Decoder, capacity, new, push, extend, drop_front}

-- The bytes that count, oldest first.
abbrev pub contents : Decoder → Bytes
contents d = take d.len d.buf

pub record IsDecoder (d : Decoder) : Type 0 where
  pub full : length d.buf ≡ capacity
  pub within : d.len ≤ capacity

pub new-IsDecoder : IsDecoder new
unfolding new
new-IsDecoder = record { full = length-replicate {A = ℕ} capacity 0; within = omega arith }

-- A state that stands for some bytes.
pub record Holds (d : Decoder) (bs : Bytes) : Type 0 where
  pub ok : IsDecoder d
  pub holds : contents d ≡ bs

pub Holds-length : {d : Decoder} (bs : Bytes) → Holds d bs → length bs ≡ d.len
Holds-length {d} bs h =
    omega (arith, ap length h.holds, length-take d.len d.buf, h.ok.full, h.ok.within)

pub new-Holds : Holds new []
unfolding new
new-Holds = record { ok = new-IsDecoder; holds = refl }

-- `drop_front` within bounds does not panic, and drops the oldest bytes.
pub drop_front_lem :
    (d : Decoder) (bs : Bytes) (n : ℕ)
    → Holds d bs
    → n ≤ length bs
    → (e : Decoder) × (drop_front d n ≡ some e) × Holds e (drop n bs)
unfolding drop_front copy_within
drop_front_lem d bs n h fits =
    let here : n ≤ d.len = omega (arith, Holds-length bs h) in
    let kept = take (d.len - n) (drop n d.buf) in
    let e : Decoder = record { buf = kept ++ drop (d.len - n) d.buf; len = d.len - n } in
    let kept_length : length kept ≡ d.len - n = omega (
      arith,
      length-take (d.len - n) (drop n d.buf),
      length-drop n d.buf,
      h.ok.full,
      h.ok.within,
    ) in
    (
      e,
      ground (arith, h.ok.full, h.ok.within),
      record {
        ok = record {
          full = omega (
            arith,
            length-append kept (drop (d.len - n) d.buf),
            kept_length,
            length-drop (d.len - n) d.buf,
            h.ok.full,
            h.ok.within,
          );
          within = omega (arith, h.ok.within);
        };
        holds =
            take-append_self (d.len - n) kept (drop (d.len - n) d.buf) kept_length
            ∙ sym (drop-take n d.len d.buf here)
            ∙ ap (drop n) h.holds;
      },
    )

-- A byte that counts is read from the array.
pub get_elem?-Holds :
    {d : Decoder} (bs : Bytes) (i : ℕ)
    → Holds d bs
    → i < length bs
    → get_elem? d.buf i ≡ get_elem? bs i
get_elem?-Holds {d} bs i h lt =
    sym (get_elem?-take d.len i d.buf (omega (arith, Holds-length bs h)))
    ∙ ap (λ t. get_elem? t i) h.holds

-- A range of bytes that count is read from the array.
pub slice-Holds :
    {d : Decoder} (bs : Bytes) (a b : ℕ)
    → Holds d bs
    → a ≤ b
    → b ≤ length bs
    → slice d.buf a b ≡ slice bs a b
unfolding slice
slice-Holds {d} bs a b h ab fits =
    let size = Holds-length bs h in
    let same : take (b - a) (drop a d.buf) ≡ take (b - a) (drop a bs) =
      sym (take-take (b - a) (d.len - a) (drop a d.buf) (omega arith))
      ∙ ap (take (b - a)) (sym (drop-take a d.len d.buf (omega arith)) ∙ ap (drop a) h.holds) in
    ground (arith, h.ok.full, h.ok.within)

-- The bytes held after one more has come: the oldest is lost where the array is full.
abbrev pub grow : Bytes → ℕ → Bytes
grow bs byte = (if length bs == capacity then drop 1 bs else bs) ++ (byte ∷ [])

abbrev pub grow_all : Bytes → Bytes → Bytes
grow_all bs [] = bs
grow_all bs (y ∷ ys) = grow_all (grow bs y) ys

append_one :
    (d : Decoder) (bs : Bytes) (byte : ℕ)
    → Holds d bs
    → length bs < capacity
    → (e : Bytes) × (store d.buf d.len byte ≡ some e)
      × Holds (record { buf = e; len = d.len + 1 }) (bs ++ (byte ∷ []))
unfolding store
append_one d bs byte h fits =
    let size = Holds-length bs h in
    let full = h.ok.full in
    let count : d.len + 1 ≡ suc d.len = omega arith in
    (
      set d.buf d.len byte,
      ground arith,
      record {
        ok = record { full = length-set d.buf d.len byte ∙ full; within = omega arith };
        holds =
            ap (λ m. take m (set d.buf d.len byte)) count
            ∙ take-set d.len d.buf byte (omega arith)
            ∙ ap (λ t. t ++ (byte ∷ [])) h.holds;
      },
    )

-- `push` never panics, and adds the byte as the newest.
pub push_lem :
    (d : Decoder) (bs : Bytes) (byte : ℕ)
    → Holds d bs
    → (e : Decoder) × (push d byte ≡ some e) × Holds e (grow bs byte)
unfolding push
push_lem d bs byte h = elim (Bool-cases (length bs == capacity)) [
  | inl full ↦
      let size = Holds-length bs h in
      let (d', dropped, h') = drop_front_lem d bs 1 h (ground arith) in
      let (e, stored, h'') = append_one d' (drop 1 bs) byte h' (ground (arith, length-drop 1 bs)) in
      (record { buf = e; len = d'.len + 1 }, ground arith, rw full h'')
  | inr room ↦
      let size = Holds-length bs h in
      let inside = h.ok.within in
      let (e, stored, h') = append_one d bs byte h (ground arith) in
      (record { buf = e; len = d.len + 1 }, ground arith, rw room h')
]

-- `extend` never panics, and adds the bytes in order.
pub extend_lem :
    (d : Decoder) (bs ys : Bytes)
    → Holds d bs
    → (e : Decoder) × (extend d ys ≡ some e) × Holds e (grow_all bs ys)
unfolding extend
extend_lem d bs [] h = (d, refl, h)
extend_lem d bs (y ∷ ys) h =
    let (d', pushed, h') = push_lem d bs y h in
    let (e, extended, h'') = extend_lem d' (grow bs y) ys h' in (e, ground arith, h'')

-- Bytes that fit are all kept.
pub grow_all-append : (bs ys : Bytes) → length bs + length ys ≤ capacity → grow_all bs ys ≡ bs ++ ys
grow_all-append bs [] h = sym (append-nil bs)
grow_all-append bs (y ∷ ys) h =
    let room : (length bs == capacity) ≡ false = ground arith in
    rw room (
      grow_all-append (bs ++ (y ∷ [])) ys (omega (arith, length-append bs (y ∷ [])))
      ∙ append_assoc bs (y ∷ []) ys)
