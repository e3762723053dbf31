-- ===== src/Alvik/Protocol/Encoding.antt =====
-- What a command is on the wire, and what commands with the same bytes there have in common.
use beet_esp.Base.{ℕ, ◌^◌, ◌≤◌, ◌<◌, ◌≡◌, refl, sym, ◌∙◌, ap, arith, Option, some, [], ◌∷◌}
use beet_esp.Base.{◌++◌, Bytes, length, take, drop, get_or, le_bytes32, copy_into, store}
use beet_esp.Base.{take-append_self}
use beet_esp.Ucpack.Frame.{payload_max}
use beet_esp.Ucpack.Encoder.{
  Encoder, IsEncoder, frame_lem, wire, c1b, c2b, c1f, c2f, c3f, c1b3f, c2b1f,
}
use beet_esp.Alvik.Units.{Units, UnitLaws}
use beet_esp.Alvik.Types.{Side, left, right, label}
use beet_esp.Alvik.Protocol.{
  Command, set_behavior, rotate, move, set_wheel_speeds, set_wheel_angles, drive, set_servo,
  set_leds, reset_pose, wheel_reset, wheel_speed, wheel_position, set_pid_gains, encode,
}

-- The code byte of a command, and its payload: bytes as they are, floats with the low byte first.
abbrev pub code_of : {u : Units} → Command u → ℕ
code_of (set_behavior b) = b'B'
code_of (rotate a) = b'R'
code_of (move d) = b'G'
code_of (set_wheel_speeds l r) = b'J'
code_of (set_wheel_angles l r) = b'A'
code_of (drive l a) = b'V'
code_of (set_servo a b) = b'S'
code_of (set_leds s) = b'L'
code_of (reset_pose x y t) = b'Z'
code_of (wheel_reset w p) = b'W'
code_of (wheel_speed w s) = b'W'
code_of (wheel_position w p) = b'W'
code_of (set_pid_gains w p i d) = b'P'
code_of (Command.ack b) = b'X'

abbrev pub payload_of : (u : Units) → Command u → Bytes
payload_of u (set_behavior b) = b ∷ []
payload_of u (rotate a) = le_bytes32 (u.as_degrees a)
payload_of u (move d) = le_bytes32 (u.as_millimeters d)
payload_of u (set_wheel_speeds l r) = le_bytes32 (u.as_rpm l) ++ le_bytes32 (u.as_rpm r)
payload_of u (set_wheel_angles l r) = le_bytes32 (u.as_degrees l) ++ le_bytes32 (u.as_degrees r)
payload_of u (drive l a) = le_bytes32 (u.as_mm_per_sec l) ++ le_bytes32 (u.as_deg_per_sec a)
payload_of u (set_servo a b) = a ∷ b ∷ []
payload_of u (set_leds s) = s ∷ []
payload_of u (reset_pose x y t) =
    le_bytes32 (u.as_millimeters x)
    ++ (le_bytes32 (u.as_millimeters y) ++ le_bytes32 (u.as_degrees t))
payload_of u (wheel_reset w p) = label w ∷ b'Z' ∷ le_bytes32 (u.as_degrees p)
payload_of u (wheel_speed w s) = label w ∷ b'V' ∷ le_bytes32 (u.as_rpm s)
payload_of u (wheel_position w p) = label w ∷ b'P' ∷ le_bytes32 (u.as_degrees p)
payload_of u (set_pid_gains w p i d) = label w ∷ (le_bytes32 p ++ (le_bytes32 i ++ le_bytes32 d))
payload_of u (Command.ack b) = b ∷ []

payload_fits : (u : Units) (c : Command u) → length (payload_of u c) ≤ payload_max
payload_fits u (set_behavior b) = omega arith
payload_fits u _ = omega arith

-- Every command is encoded, on an encoder in any state, as the frame of its code and payload.
pub encode-wire :
    (u : Units) (c : Command u) (e : Encoder)
    → IsEncoder e
    → (e' : Encoder) × (encode u c e ≡ some (e', wire (code_of c) (payload_of u c))) × IsEncoder e'
unfolding encode c1b c2b c1f c2f c3f c1b3f c2b1f copy_into store
encode-wire u (set_behavior b) e ok =
    frame_lem e b'B' (payload_of u (set_behavior b)) ok (omega arith)
encode-wire u c e ok = frame_lem e (code_of c) (payload_of u c) ok (payload_fits u c)

-- The floats of the gains are floats; the other commands are as their types say.
abbrev pub IsCommand : {u : Units} → Command u → Type 0
IsCommand (set_pid_gains w p i d) = (p < 2 ^ 32) × (i < 2 ^ 32) × (d < 2 ^ 32)
IsCommand _ = Unit {0}

-- Commands of one kind with equal numbers and sides, and quantities with equal floats.
abbrev pub Alike : (u : Units) → Command u → Command u → Type 0
Alike u (set_behavior a) (set_behavior b) = a ≡ b
Alike u (rotate a) (rotate b) = u.as_degrees a ≡ u.as_degrees b
Alike u (move a) (move b) = u.as_millimeters a ≡ u.as_millimeters b
Alike u (set_wheel_speeds a b) (set_wheel_speeds a' b') =
    (u.as_rpm a ≡ u.as_rpm a') × (u.as_rpm b ≡ u.as_rpm b')
Alike u (set_wheel_angles a b) (set_wheel_angles a' b') =
    (u.as_degrees a ≡ u.as_degrees a') × (u.as_degrees b ≡ u.as_degrees b')
Alike u (drive a b) (drive a' b') =
    (u.as_mm_per_sec a ≡ u.as_mm_per_sec a') × (u.as_deg_per_sec b ≡ u.as_deg_per_sec b')
Alike u (set_servo a b) (set_servo a' b') = (a ≡ a') × (b ≡ b')
Alike u (set_leds a) (set_leds b) = a ≡ b
Alike u (reset_pose a b c) (reset_pose a' b' c') =
    (u.as_millimeters a ≡ u.as_millimeters a')
    × (u.as_millimeters b ≡ u.as_millimeters b')
    × (u.as_degrees c ≡ u.as_degrees c')
Alike u (wheel_reset w a) (wheel_reset w' b) = (w ≡ w') × (u.as_degrees a ≡ u.as_degrees b)
Alike u (wheel_speed w a) (wheel_speed w' b) = (w ≡ w') × (u.as_rpm a ≡ u.as_rpm b)
Alike u (wheel_position w a) (wheel_position w' b) = (w ≡ w') × (u.as_degrees a ≡ u.as_degrees b)
Alike u (set_pid_gains w p i d) (set_pid_gains w' p' i' d') =
    (w ≡ w') × (p ≡ p') × (i ≡ i') × (d ≡ d')
Alike u (Command.ack a) (Command.ack b) = a ≡ b
Alike u _ _ = ⊥

le_bytes32_injective : (w v : ℕ) → w < 2 ^ 32 → v < 2 ^ 32 → le_bytes32 w ≡ le_bytes32 v → w ≡ v
le_bytes32_injective w v hw hv e =
    let at = λ (i : ℕ). ap (λ (t : Bytes). get_or t i 0) e in omega (arith, at 0, at 1, at 2, at 3)

label_injective : (a b : Side) → label a ≡ label b → a ≡ b
unfolding label
label_injective left left e = refl
label_injective right right e = refl
label_injective _ _ e = absurd (omega arith)

wire-payload : (c d : ℕ) (p q : Bytes) → wire c p ≡ wire d q → (c ≡ d) × (p ≡ q)
wire-payload c d p q e =
    let at = λ (i : ℕ). ap (λ (t : Bytes). get_or t i 0) e in
    let long : length p ≡ length q = omega (arith, at 1) in
    (
      at 2,
      sym (take-append_self (length p) p _ refl)
          ∙ ap (λ t. take (length p) (drop 3 t)) e
          ∙ take-append_self (length p) q _ (sym long),
    )

module _ (u : Units) (laws : UnitLaws u) where
  open laws use {degrees_f32, rpm_f32, deg_per_sec_f32, millimeters_f32, mm_per_sec_f32}

  same_degrees :
      (a b : u.Angle)
      → le_bytes32 (u.as_degrees a) ≡ le_bytes32 (u.as_degrees b)
      → u.as_degrees a ≡ u.as_degrees b
  same_degrees a b e = le_bytes32_injective _ _ (degrees_f32 a) (degrees_f32 b) e

  same_rpm :
      (a b : u.AngularVelocity)
      → le_bytes32 (u.as_rpm a) ≡ le_bytes32 (u.as_rpm b)
      → u.as_rpm a ≡ u.as_rpm b
  same_rpm a b e = le_bytes32_injective _ _ (rpm_f32 a) (rpm_f32 b) e

  same_deg_per_sec :
      (a b : u.AngularVelocity)
      → le_bytes32 (u.as_deg_per_sec a) ≡ le_bytes32 (u.as_deg_per_sec b)
      → u.as_deg_per_sec a ≡ u.as_deg_per_sec b
  same_deg_per_sec a b e = le_bytes32_injective _ _ (deg_per_sec_f32 a) (deg_per_sec_f32 b) e

  same_millimeters :
      (a b : u.Distance)
      → le_bytes32 (u.as_millimeters a) ≡ le_bytes32 (u.as_millimeters b)
      → u.as_millimeters a ≡ u.as_millimeters b
  same_millimeters a b e = le_bytes32_injective _ _ (millimeters_f32 a) (millimeters_f32 b) e

  same_mm_per_sec :
      (a b : u.LinearVelocity)
      → le_bytes32 (u.as_mm_per_sec a) ≡ le_bytes32 (u.as_mm_per_sec b)
      → u.as_mm_per_sec a ≡ u.as_mm_per_sec b
  same_mm_per_sec a b e = le_bytes32_injective _ _ (mm_per_sec_f32 a) (mm_per_sec_f32 b) e

  message-Alike :
      (c d : Command u)
      → IsCommand c
      → IsCommand d
      → code_of c ≡ code_of d
      → payload_of u c ≡ payload_of u d
      → Alike u c d
  message-Alike (set_behavior a) (set_behavior b) _ _ e f = cc
  message-Alike (rotate a) (rotate b) _ _ e f = same_degrees a b f
  message-Alike (move a) (move b) _ _ e f = same_millimeters a b f
  message-Alike (set_wheel_speeds a b) (set_wheel_speeds a' b') _ _ e f =
      (same_rpm a a' (ap (take 4) f), same_rpm b b' (ap (drop 4) f))
  message-Alike (set_wheel_angles a b) (set_wheel_angles a' b') _ _ e f =
      (same_degrees a a' (ap (take 4) f), same_degrees b b' (ap (drop 4) f))
  message-Alike (drive a b) (drive a' b') _ _ e f =
      (same_mm_per_sec a a' (ap (take 4) f), same_deg_per_sec b b' (ap (drop 4) f))
  message-Alike (set_servo a b) (set_servo a' b') _ _ e f = (cc, cc)
  message-Alike (set_leds a) (set_leds b) _ _ e f = cc
  message-Alike (reset_pose a b c) (reset_pose a' b' c') _ _ e f = (
    same_millimeters a a' (ap (take 4) f),
    same_millimeters b b' (ap (λ t. take 4 (drop 4 t)) f),
    same_degrees c c' (ap (drop 8) f),
  )
  message-Alike (wheel_reset w a) (wheel_reset w' b) _ _ e f =
      (label_injective w w' (cc f), same_degrees a b (ap (drop 2) f))
  message-Alike (wheel_speed w a) (wheel_speed w' b) _ _ e f =
      (label_injective w w' (cc f), same_rpm a b (ap (drop 2) f))
  message-Alike (wheel_position w a) (wheel_position w' b) _ _ e f =
      (label_injective w w' (cc f), same_degrees a b (ap (drop 2) f))
  message-Alike (set_pid_gains w p i d) (set_pid_gains w' p' i' d') (hp, hi, hd) (hp', hi', hd') e
        f =
      (
        label_injective w w' (cc f),
        le_bytes32_injective p p' hp hp' (ap (λ t. take 4 (drop 1 t)) f),
        le_bytes32_injective i i' hi hi' (ap (λ t. take 4 (drop 5 t)) f),
        le_bytes32_injective d d' hd hd' (ap (drop 9) f),
      )
  message-Alike (Command.ack a) (Command.ack b) _ _ e f = cc
  message-Alike _ _ _ _ e f = absurd (ground arith)

  -- Two commands with the same bytes on the wire are of the same kind, and have the same numbers and sides and
  -- quantities with the same floats, whatever the states of the encoders; the gains of a command are floats.
  pub encode-Alike :
      (c d : Command u) (e e' e₁ e₁' : Encoder) (bs : Bytes)
      → IsCommand c
      → IsCommand d
      → IsEncoder e
      → IsEncoder e'
      → encode u c e ≡ some (e₁, bs)
      → encode u d e' ≡ some (e₁', bs)
      → Alike u c d
  encode-Alike c d e e' e₁ e₁' bs hc hd ok ok' p q =
      let (a, pa, _) = encode-wire u c e ok in
      let (b, pb, _) = encode-wire u d e' ok' in
      let same : wire (code_of c) (payload_of u c) ≡ wire (code_of d) (payload_of u d) =
        bytes_of pa p ∙ sym (bytes_of pb q) in
      let (codes, payloads) = wire-payload (code_of c) (code_of d) _ _ same in
      message-Alike c d hc hd codes payloads
    where
      bytes_of :
          {r : Option (Encoder × Bytes)} {x y : Encoder} {xs ys : Bytes}
          → r ≡ some (x, xs)
          → r ≡ some (y, ys)
          → xs ≡ ys
      bytes_of h k = cc
