-- ===== src/Alvik/Protocol/Total.antt =====
-- Decoding never panics, and refuses exactly the codes that are not those of a status message.
use beet_esp.Base.{ℕ, ◌+◌, ◌<◌, ◌≡◌, refl, arith, Option, none, some, ◌↔◌}
use beet_esp.Base.{
  Bool, true, false, ◌||◌, if◌then◌else◌, ◌==◌, ℤ, List, [], ◌∷◌, lt_zero, gt_zero, neg,
}
use beet_esp.Ucpack.Frame.{Frame, IsFrame, u8_at, i16_at, f32_at, u8_at_lem, i16_at_lem, f32_at_lem}
use beet_esp.Ucpack.Frame.{byte_of, i16_of, f32_of}
use beet_esp.Alvik.Units.{Units}
use beet_esp.Alvik.Protocol.{
  Status, battery, decode, two_f32, three_f32, three_i16, one_u8, decode_battery, decode_imu,
  decode_tof_matrix, decode_fw_version, distance,
}

-- The codes of status messages.
abbrev pub status_codes : List ℕ
status_codes =
    b'j' ∷ b'w' ∷ b'l' ∷ b'c' ∷ b'i' ∷ b'q' ∷ b'p' ∷ b'd' ∷ b'f' ∷ b't' ∷ b'm' ∷ b'b' ∷ b'v' ∷ b'z'
    ∷ b'x' ∷ 0x7E ∷ []

abbrev pub one_of : List ℕ → ℕ → Bool
one_of [] c = false
one_of (x ∷ xs) c = c == x || one_of xs c

-- No panic, and a status exactly if the flag says so.
abbrev pub Known : (u : Units) → Option (Option (Status u)) → Bool → Type 0
Known u o known = (r : Option (Status u)) × (o ≡ some r) × ((r ≡ none) ↔ (known ≡ false))

module _ (u : Units) where
  if-Known :
      (t : Bool) (x y : Option (Option (Status u))) (b : Bool)
      → Known u x true
      → Known u y b
      → Known u (if t then x else y) (t || b)
  if-Known true x y b h k = h
  if-Known false x y b h k = k

  some-Known : (x : Option (Option (Status u))) (s : Status u) → x ≡ some (some s) → Known u x true
  some-Known x s e = (some s, e, (λ h. cc, λ h. cc))

  module _ (f : Frame) (ok : IsFrame f) where
    f32 : (i : ℕ) → i + 3 < 24 → f32_at f i ≡ some (f32_of f i)
    f32 i h = f32_at_lem f ok i h

    i16 : (i : ℕ) → i + 1 < 24 → i16_at f i ≡ some (i16_of f i)
    i16 i h = i16_at_lem f ok i h

    u8 : (i : ℕ) → i < 24 → u8_at f i ≡ some (byte_of f i)
    u8 i h = u8_at_lem f ok i h

    two-Known : (k : ℕ → ℕ → Status u) → Known u (two_f32 u f k) true
    two-Known k =
        some-Known _ (k (f32_of f 0) (f32_of f 4)) (rw (f32 0 (omega arith), f32 4 (omega arith)))

    three-Known : (k : ℕ → ℕ → ℕ → Status u) → Known u (three_f32 u f k) true
    three-Known k =
        some-Known _ (k (f32_of f 0) (f32_of f 4) (f32_of f 8))
          (rw (f32 0 (omega arith), f32 4 (omega arith), f32 8 (omega arith)))

    words-Known : (k : ℤ → ℤ → ℤ → Status u) → Known u (three_i16 u f k) true
    words-Known k =
        some-Known _ (k (i16_of f 0) (i16_of f 2) (i16_of f 4))
          (rw (i16 0 (omega arith), i16 2 (omega arith), i16 4 (omega arith)))

    byte-Known : (k : ℕ → Status u) → Known u (one_u8 u f k) true
    byte-Known k = some-Known _ (k (byte_of f 0)) (rw (u8 0 (omega arith)))

    battery-Known : Known u (decode_battery u f) true
    unfolding decode_battery
    battery-Known =
        some-Known _
          (battery (if lt_zero (f32_of f 0) then neg (f32_of f 0) else f32_of f 0)
            (gt_zero (f32_of f 0)))
          (rw (f32 0 (omega arith)))

    imu-Known : Known u (decode_imu u f) true
    unfolding decode_imu
    imu-Known =
        some-Known _
          (Status.imu (f32_of f 0) (f32_of f 4) (f32_of f 8) (f32_of f 12) (f32_of f 16)
            (f32_of f 20))
          (rw (
            f32 0 (omega arith),
            f32 4 (omega arith),
            f32 8 (omega arith),
            f32 12 (omega arith),
            f32 16 (omega arith),
            f32 20 (omega arith),
          ))

    matrix-Known : Known u (decode_tof_matrix u f) true
    unfolding decode_tof_matrix
    matrix-Known =
        let d = λ (i : ℕ). distance u f (i16_of f i) in
        some-Known _ (Status.tof_matrix (d 0) (d 2) (d 4) (d 6) (d 8) (d 10) (d 12)) (
          rw (
            i16 0 (omega arith),
            i16 2 (omega arith),
            i16 4 (omega arith),
            i16 6 (omega arith),
            i16 8 (omega arith),
            i16 10 (omega arith),
            i16 12 (omega arith),
          ))

    version-Known : Known u (decode_fw_version u f) true
    unfolding decode_fw_version
    version-Known =
        some-Known _ (Status.fw_version (byte_of f 0) (byte_of f 1) (byte_of f 2))
          (rw (u8 0 (omega arith), u8 1 (omega arith), u8 2 (omega arith)))

    none-Known : Known u (some none) false
    none-Known = (none, refl, (λ h. refl, λ h. refl))

    -- On a frame of the decoder, `Status::decode` does not panic, and its result is `None` exactly
    -- if the code is none of the sixteen codes of a status message.
    pub decode-Known : Known u (decode u f) (one_of status_codes f.code)
    unfolding decode
    decode-Known = if-Known (f.code == b'j') _ _ _ (two-Known _) (
        if-Known (f.code == b'w') _ _ _ (two-Known _) (
          if-Known (f.code == b'l') _ _ _ (words-Known _) (
            if-Known (f.code == b'c') _ _ _ (words-Known _) (
              if-Known (f.code == b'i') _ _ _ imu-Known (
                if-Known (f.code == b'q') _ _ _ (three-Known _) (
                  if-Known (f.code == b'p') _ _ _ battery-Known (
                    if-Known (f.code == b'd') _ _ _ (words-Known _) (
                      if-Known (f.code == b'f') _ _ _ matrix-Known (
                        if-Known (f.code == b't') _ _ _ (byte-Known _) (
                          if-Known (f.code == b'm') _ _ _ (byte-Known _) (
                            if-Known (f.code == b'b') _ _ _ (byte-Known _) (
                              if-Known (f.code == b'v') _ _ _ (two-Known _) (
                                if-Known (f.code == b'z') _ _ _ (three-Known _) (
                                  if-Known (f.code == b'x') _ _ _ (byte-Known _) (
                                    if-Known (f.code == 0x7E) _ _ _ version-Known
                                      none-Known)))))))))))))))
