-- ===== src/Ucpack/Decoder/Rounds.antt =====
-- One round of the loop of `pop` on the array does what `scan` says of the bytes held.
use mathlib.Core.List.{append_assoc}
use beet_esp.Base.{ℕ, suc, ◌+◌, ◌-◌, ◌%◌, ◌^◌, ◌≤◌, ◌<◌, ◌≡◌, refl, sym, ◌∙◌, ap, arith}
use beet_esp.Base.{◌&&◌, ◌||◌, Option, none, some, [], ◌∷◌, ◌++◌}
use beet_esp.Base.{Bytes, IsBytes, length, drop, get_elem?, replicate, slice, copy_into}
use beet_esp.Base.{ltb, ◌==◌, if◌then◌else◌, Bool-cases, inl, inr, length-append, get_elem?-length}
use beet_esp.Base.{
  slice-append, copy_into-append, replicate-add, length-replicate, drop-append_self,
}
use beet_esp.Base.{==_iff}
use beet_esp.Ucpack.Crc.{crc8}
use beet_esp.Ucpack.Frame.{start_byte, end_byte, payload_max}
use beet_esp.Ucpack.Stream.{Scan, wait, skip, found, to_frame, scan}
use beet_esp.Ucpack.Stream.Wire.{parts, scan-parts}
use beet_esp.Ucpack.Decoder.{Decoder, Round, again, finish, resync}
use beet_esp.Ucpack.Decoder.{take_frame, round}
use beet_esp.Ucpack.Decoder.Buffer.{Holds, Holds-length, drop_front_lem}
use beet_esp.Ucpack.Decoder.Buffer.{get_elem?-Holds, slice-Holds}

-- What the verdict of `scan` means for a round.
abbrev pub Meets : Scan → Decoder → Bytes → Option Round → Type 0
Meets wait d bs r = r ≡ some (finish none d)
Meets skip d bs r = (e : Decoder) × (r ≡ some (again e)) × Holds e (drop 1 bs)
Meets (found f rest) d bs r = (e : Decoder) × (r ≡ some (finish (some f) e)) × Holds e rest

resync-Meets : (d : Decoder) (bs : Bytes) → Holds d bs → 1 ≤ length bs → Meets skip d bs (resync d)
unfolding resync
resync-Meets d bs h ne = let (e, dropped, h') = drop_front_lem d bs 1 h ne in (e, ground arith, h')

-- The payload's array, filled up with zeros.
fill_payload :
    (payload : Bytes)
    → length payload ≤ payload_max
    → copy_into (replicate payload_max 0) 0 payload
      ≡ some (payload ++ replicate (payload_max - length payload) 0)
fill_payload payload h =
    ap (λ t. copy_into t 0 payload)
      (ap (λ m. replicate m 0) {x = payload_max} (omega arith)
        ∙ replicate-add (length payload) (payload_max - length payload) 0)
    ∙ copy_into-append [] (replicate (length payload) 0)
        (replicate (payload_max - length payload) 0) payload {a = 0} refl
        (length-replicate (length payload) 0)

module _ (d : Decoder) (code : ℕ) (payload : Bytes) (e k : ℕ) (rest : Bytes)
    (small : length payload ≤ payload_max)
    (h : Holds d (start_byte ∷ suc (length payload) ∷ code ∷ (payload ++ (e ∷ k ∷ rest)))) where
  abbrev held : Bytes
  held = start_byte ∷ suc (length payload) ∷ code ∷ (payload ++ (e ∷ k ∷ rest))

  abbrev front : Bytes
  front = start_byte ∷ suc (length payload) ∷ code ∷ payload

  reads_ending : get_elem? d.buf (suc (length payload) + 2) ≡ some e
  reads_ending =
      get_elem?-Holds held _ h (omega (arith, length-append payload (e ∷ k ∷ rest)))
      ∙ get_elem?-length front e (k ∷ rest) (omega arith)

  reads_sum : get_elem? d.buf (suc (length payload) + 3) ≡ some k
  reads_sum =
      get_elem?-Holds held _ h (omega (arith, length-append payload (e ∷ k ∷ rest)))
      ∙ ap (λ t. get_elem? t (suc (length payload) + 3))
          (ap (λ t. start_byte ∷ suc (length payload) ∷ code ∷ t)
            (sym (append_assoc payload (e ∷ []) (k ∷ rest))))
      ∙ get_elem?-length (start_byte ∷ suc (length payload) ∷ code ∷ (payload ++ (e ∷ []))) k rest
          (omega (arith, length-append payload (e ∷ [])))

  reads_covered : slice d.buf 2 (2 + suc (length payload)) ≡ some (code ∷ payload)
  reads_covered =
      slice-Holds held 2 _ h (omega arith) (omega (arith, length-append payload (e ∷ k ∷ rest)))
      ∙ slice-append (start_byte ∷ suc (length payload) ∷ []) (code ∷ payload) (e ∷ k ∷ rest) refl
          (omega arith)

  reads_payload : slice d.buf 3 (3 + length payload) ≡ some payload
  reads_payload =
      slice-Holds held 3 _ h (omega arith) (omega (arith, length-append payload (e ∷ k ∷ rest)))
      ∙ slice-append (start_byte ∷ suc (length payload) ∷ code ∷ []) payload (e ∷ k ∷ rest) refl
          refl

  reads_code : get_elem? d.buf 2 ≡ some code
  reads_code = get_elem?-Holds held 2 h (omega arith)

  left_over : drop (suc (length payload) + 4) held ≡ rest
  left_over =
      ap (drop (suc (length payload) + 4)) (
        ap (λ t. start_byte ∷ suc (length payload) ∷ code ∷ t)
          (sym (append_assoc payload (e ∷ k ∷ []) rest)))
      ∙ drop-append_self _ (start_byte ∷ suc (length payload) ∷ code ∷ (payload ++ (e ∷ k ∷ [])))
          rest (omega (arith, length-append payload (e ∷ k ∷ [])))

  take_frame-Meets :
      Meets
        (if e == end_byte && k == crc8 (code ∷ payload)
          then found (to_frame code payload) rest
          else skip)
        d
        held
        (take_frame d (suc (length payload)) (length payload))
  unfolding take_frame
  take_frame-Meets = elim (Bool-cases (e == end_byte && k == crc8 (code ∷ payload))) [
    | inl good ↦
        let (d', dropped, h') =
          drop_front_lem d held (suc (length payload) + 4) h
            (omega (arith, length-append payload (e ∷ k ∷ rest))) in
        rw good (
          d',
          ground (
            arith,
            reads_ending,
            reads_sum,
            reads_covered,
            reads_payload,
            reads_code,
            fill_payload payload small,
          ),
          rw left_over at h',
        )
    | inr bad ↦
        let (d', resynced, h') = resync-Meets d held h (omega arith) in
        rw bad (d', ground (arith, reads_ending, reads_sum, reads_covered), h')
  ]

-- `round` on the first bytes, up to the frame behind a plausible length field.
round-Meets_empty : (d : Decoder) → Holds d [] → Meets (scan []) d [] (round d)
unfolding round scan
round-Meets_empty d h = ground (arith, Holds-length [] h)

pub round-Meets-stop : (d : Decoder) → Holds d [] → round d ≡ some (finish none d)
unfolding round
round-Meets-stop d h = ground (arith, Holds-length [] h)

round-Meets_one :
    (d : Decoder) (b : ℕ) → Holds d (b ∷ []) → Meets (scan (b ∷ [])) d (b ∷ []) (round d)
unfolding round scan
round-Meets_one d b h = elim (Bool-cases (b == start_byte)) [
  | inl begins ↦ rw begins (ground (arith, Holds-length (b ∷ []) h, get_elem?-Holds (b ∷ []) 0 h))
  | inr junk ↦
      let (d', resynced, h') = resync-Meets d (b ∷ []) h (omega arith) in
      rw junk (d', ground (arith, Holds-length (b ∷ []) h, get_elem?-Holds (b ∷ []) 0 h), h')
]

module _ (d : Decoder) (code : ℕ) (payload : Bytes) (e k : ℕ) (rest : Bytes)
    (small : length payload ≤ payload_max) where
  round-Meets_explicit :
      Holds d (start_byte ∷ suc (length payload) ∷ code ∷ (payload ++ (e ∷ k ∷ rest)))
      → Meets
          (scan (start_byte ∷ suc (length payload) ∷ code ∷ (payload ++ (e ∷ k ∷ rest))))
          d
          (start_byte ∷ suc (length payload) ∷ code ∷ (payload ++ (e ∷ k ∷ rest)))
          (round d)
  round-Meets_explicit h =
      let bs = start_byte ∷ suc (length payload) ∷ code ∷ (payload ++ (e ∷ k ∷ rest)) in
      let less : (suc (length payload) + 2 ^ 32 - 1) % 2 ^ 32 ≡ length payload = omega arith in
      let enters : round d ≡ take_frame d (suc (length payload)) (length payload) =
        unfold round in
        ground (
          arith,
          less,
          Holds-length bs h,
          length-append payload (e ∷ k ∷ rest),
          get_elem?-Holds bs 0 h,
          get_elem?-Holds bs 1 h,
        ) in
      rw (scan-parts code payload e k rest small, enters)
        (take_frame-Meets d code payload e k rest small h)

  round-Meets_cut :
      (n : ℕ) (r : Bytes)
      → n ≡ suc (length payload)
      → r ≡ code ∷ (payload ++ (e ∷ k ∷ rest))
      → Holds d (start_byte ∷ n ∷ r)
      → Meets (scan (start_byte ∷ n ∷ r)) d (start_byte ∷ n ∷ r) (round d)
  round-Meets_cut n r en er h = rw (en, er) (round-Meets_explicit (rw (en, er) at h))

round-Meets-skip :
    (d : Decoder) (bs : Bytes)
    → Holds d bs
    → 1 ≤ length bs
    → round d ≡ resync d
    → scan bs ≡ skip
    → Meets (scan bs) d bs (round d)
round-Meets-skip d bs h ne enters v = rw (v, enters) (resync-Meets d bs h ne)

round-Meets_begun :
    (d : Decoder) (n : ℕ) (r : Bytes)
    → Holds d (start_byte ∷ n ∷ r)
    → n < 256
    → Meets (scan (start_byte ∷ n ∷ r)) d (start_byte ∷ n ∷ r) (round d)
round-Meets_begun d n r h byte =
    let bs = start_byte ∷ n ∷ r in
    let size = Holds-length bs h in
    let first = get_elem?-Holds bs 0 h (omega arith) in
    let second = get_elem?-Holds bs 1 h (omega arith) in
    elim (Bool-cases (n == 0 || ltb payload_max (n - 1))) [
      | inl implausible ↦
          round-Meets-skip d bs h (omega arith) (unfold round in ground arith)
            (unfold scan in ground arith)
      | inr plausible ↦ elim (Bool-cases (ltb (length r) (n + 2))) [
        | inl short ↦
            let v : scan bs ≡ wait = unfold scan in ground arith in
            rw v (unfold round in ground arith)
        | inr arrived ↦
            let p = parts n r (ground arith) (ground arith) in
            round-Meets_cut d p.code p.payload p.ending p.sum p.rest (ground (arith, p.counts)) n r
              p.counts p.cuts h
      ]
    ]

pub round-Meets :
    (d : Decoder) (bs : Bytes) → Holds d bs → IsBytes bs → Meets (scan bs) d bs (round d)
round-Meets d [] h bytes = round-Meets_empty d h
round-Meets d (b ∷ []) h bytes = round-Meets_one d b h
round-Meets d (b ∷ n ∷ r) h (hb, (hn, bytes)) = elim (Bool-cases (b == start_byte)) [
  | inl begins ↦
      let at = (==_iff b start_byte).0 begins in rw at (round-Meets_begun d n r (rw at at h) hn)
  | inr junk ↦
      let bs = b ∷ n ∷ r in
      let size = Holds-length bs h in
      let first = get_elem?-Holds bs 0 h (omega arith) in
      round-Meets-skip d bs h (omega arith) (unfold round in ground arith)
        (unfold scan in ground arith)
]
