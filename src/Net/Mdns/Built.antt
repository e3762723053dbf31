-- ===== src/Net/Mdns/Built.antt =====
-- What the builders of `src/net/mdns.rs` write, byte by byte.
use mathlib.Core.List.{append_assoc, append-nil}
use beet_esp.Base.{ℕ, ◌/◌, ◌%◌, ◌^◌, ◌≤◌, ◌≡◌, refl, sym, ◌∙◌, ap, ap₂, arith}
use beet_esp.Base.{Option, none, some, true, false, ◌⊎◌, [], ◌∷◌, ◌++◌, Bytes, length, drop, ◌>>=◌}
use beet_esp.Base.{length-append, length-drop, store-length, drop-drop, ltb, ◌==◌, ◌||◌}
use beet_esp.Net.Mdns.Writer.{Writer, put_u8, put_u16, put_u32, put_bytes, put_part, put_name}
use beet_esp.Net.Mdns.Writer.{build_query, build_answer, local_label, Ipv4}

-- A writer that has written `out` and has `rest` of its buffer left.
abbrev pub wrote : Bytes → Bytes → Writer
wrote out rest = record { buf = out ++ rest; pos = length out }

-- `op` writes `bs`, where they fit, and goes on as `k`.
record Ends {A : Type 0} (op k : Writer → Option A) (bs : Bytes) : Type 0 where
  run :
      (out rest : Bytes)
      → length bs ≤ length rest
      → op (wrote out rest) ≡ k (wrote (out ++ bs) (drop (length bs) rest))

abbrev Puts : (Writer → Option Writer) → Bytes → Type 0
Puts op bs = Ends op (λ w. some w) bs

Ends-nil : {A : Type 0} (k : Writer → Option A) → Ends k k []
Ends-nil k = record { run = λ out rest h. ap (λ t. k (wrote t rest)) (sym (append-nil out)) }

Puts-then :
    {A : Type 0} (op : Writer → Option Writer) (go k : Writer → Option A) (bs cs : Bytes)
    → Puts op bs
    → Ends go k cs
    → Ends (λ w. op w >>= go) k (bs ++ cs)
Puts-then op go k bs cs p q = record {
  run = λ out rest h.
      ap (λ m. m >>= go) (p.run out rest (omega (arith, length-append bs cs)))
      ∙ q.run (out ++ bs) (drop (length bs) rest)
          (omega (arith, length-append bs cs, length-drop (length bs) rest))
      ∙ ap₂ (λ o r. k (wrote o r)) (append_assoc out bs cs)
          (drop-drop (length cs) (length bs) rest
            ∙ ap (λ n. drop n rest) (sym (length-append bs cs)));
}

put_u8-wrote :
    (v : ℕ) (out rest : Bytes)
    → 1 ≤ length rest
    → put_u8 (wrote out rest) v ≡ some (wrote (out ++ (v ∷ [])) (drop 1 rest))
unfolding put_u8
put_u8-wrote v out [] h = absurd (omega arith)
put_u8-wrote v out (y ∷ rest) h = rw (store-length out y v rest {i = length out} refl) (
    ap₂ (λ (b : Bytes) (p : ℕ). some (record { buf = b; pos = p }))
      (sym (append_assoc out (v ∷ []) rest)) (omega (arith, length-append out (v ∷ []))))

put_u8-Puts : (v : ℕ) → Puts (λ w. put_u8 w v) (v ∷ [])
put_u8-Puts v = record { run = λ out rest h. put_u8-wrote v out rest h }

put_u16-Puts : (v : ℕ) → Puts (λ w. put_u16 w v) (v / 2 ^ 8 % 2 ^ 8 ∷ v % 2 ^ 8 ∷ [])
unfolding put_u16
put_u16-Puts v =
    Puts-then _ _ _ (v / 2 ^ 8 % 2 ^ 8 ∷ []) (v % 2 ^ 8 ∷ []) (put_u8-Puts _) (put_u8-Puts _)

put_u32-Puts :
    (v : ℕ)
    → Puts
        (λ w. put_u32 w v)
        (v / 2 ^ 16 % 2 ^ 16 / 2 ^ 8 % 2 ^ 8
          ∷ v / 2 ^ 16 % 2 ^ 16 % 2 ^ 8
          ∷ v % 2 ^ 16 / 2 ^ 8 % 2 ^ 8
          ∷ v % 2 ^ 16 % 2 ^ 8
          ∷ [])
unfolding put_u32
put_u32-Puts v =
    Puts-then _ _ _ (v / 2 ^ 16 % 2 ^ 16 / 2 ^ 8 % 2 ^ 8 ∷ v / 2 ^ 16 % 2 ^ 16 % 2 ^ 8 ∷ [])
      (v % 2 ^ 16 / 2 ^ 8 % 2 ^ 8 ∷ v % 2 ^ 16 % 2 ^ 8 ∷ []) (put_u16-Puts (v / 2 ^ 16 % 2 ^ 16))
      (put_u16-Puts (v % 2 ^ 16))

put_bytes-Puts : (bs : Bytes) → Puts (λ w. put_bytes w bs) bs
unfolding put_bytes
put_bytes-Puts [] = Ends-nil (λ w. some w)
put_bytes-Puts (b ∷ bs) =
    Puts-then (λ w. put_u8 w b) (λ w. put_bytes w bs) (λ w. some w) (b ∷ []) bs (put_u8-Puts b)
      (put_bytes-Puts bs)

-- A label that DNS admits.
abbrev pub IsLabel : Bytes → Type 0
IsLabel label = (1 ≤ length label) × (length label ≤ 63)

put_part-Puts :
    (bytes : Bytes) → IsLabel bytes → Puts (λ w. put_part w bytes) (length bytes ∷ bytes)
unfolding put_part
put_part-Puts bytes (lo, hi) =
    let fits : (length bytes == 0 || ltb 63 (length bytes)) ≡ false = ground arith in
    let small : length bytes % 2 ^ 8 ≡ length bytes = omega arith in
    rw (fits, small)
      (Puts-then (λ w. put_u8 w (length bytes)) (λ w. put_bytes w bytes) (λ w. some w)
        (length bytes ∷ []) bytes (put_u8-Puts (length bytes)) (put_bytes-Puts bytes))

-- The name `<label>.local`, uncompressed.
abbrev pub name_bytes : Bytes → Bytes
name_bytes label = (length label ∷ label) ++ (5 ∷ b'l' ∷ b'o' ∷ b'c' ∷ b'a' ∷ b'l' ∷ 0 ∷ [])

put_name-Puts : (label : Bytes) → IsLabel label → Puts (λ w. put_name w label) (name_bytes label)
unfolding put_name
put_name-Puts label ok =
    Puts-then _ _ _ (length label ∷ label) (5 ∷ b'l' ∷ b'o' ∷ b'c' ∷ b'a' ∷ b'l' ∷ 0 ∷ [])
      (put_part-Puts label ok)
      (Puts-then (λ w. put_part w local_label) (λ w. put_u8 w 0) (λ w. some w) (5 ∷ local_label)
        (0 ∷ []) (put_part-Puts local_label (omega arith)) (put_u8-Puts 0))

-- The packet of a query: one question, type A, class IN.
abbrev pub query_bytes : Bytes → Bytes
query_bytes label =
    0 ∷ 0 ∷ 0 ∷ 0 ∷ 0 ∷ 1 ∷ 0 ∷ 0 ∷ 0 ∷ 0 ∷ 0 ∷ 0 ∷ (name_bytes label ++ (0 ∷ 1 ∷ 0 ∷ 1 ∷ []))

abbrev finish : Writer → Option (Bytes × ℕ)
finish w = some (w.buf, w.pos)

-- The body of `build_query` on its writer.
abbrev build : Writer → Bytes → Option (Bytes × ℕ)
build w label = do
  w₀ ← put_u16 w 0
  w₁ ← put_u16 w₀ 0
  w₂ ← put_u16 w₁ 1
  w₃ ← put_u16 w₂ 0
  w₄ ← put_u16 w₃ 0
  w₅ ← put_u16 w₄ 0
  w₆ ← put_name w₅ label
  w₇ ← put_u16 w₆ 1
  w₈ ← put_u16 w₇ 1
  finish w₈

-- `build_query` on a buffer with room for the packet writes it in front and gives its length.
pub build_query_lem :
    (buf label : Bytes)
    → IsLabel label
    → length (query_bytes label) ≤ length buf
    → build_query buf label
      ≡ some
          (query_bytes label ++ drop (length (query_bytes label)) buf, length (query_bytes label))
unfolding build_query
build_query_lem buf label ok room =
    let steps : Ends (λ w. build w label) finish (query_bytes label) =
      Puts-then _ _ finish (0 ∷ 0 ∷ []) _ (put_u16-Puts 0) (
        Puts-then _ _ finish (0 ∷ 0 ∷ []) _ (put_u16-Puts 0) (
          Puts-then _ _ finish (0 ∷ 1 ∷ []) _ (put_u16-Puts 1) (
            Puts-then _ _ finish (0 ∷ 0 ∷ []) _ (put_u16-Puts 0) (
              Puts-then _ _ finish (0 ∷ 0 ∷ []) _ (put_u16-Puts 0) (
                Puts-then _ _ finish (0 ∷ 0 ∷ []) _ (put_u16-Puts 0) (
                  Puts-then _ _ finish (name_bytes label) _ (put_name-Puts label ok) (
                    Puts-then _ _ finish (0 ∷ 1 ∷ []) _ (put_u16-Puts 1) (
                      Puts-then _ _ finish (0 ∷ 1 ∷ []) [] (put_u16-Puts 1)
                        (Ends-nil finish))))))))) in
    steps.run [] buf room

-- The packet of an answer: one record of type A and class IN with the cache-flush bit, 120 seconds,
-- four octets.
abbrev pub answer_bytes : Bytes → Ipv4 → Bytes
answer_bytes label ip =
    0
    ∷ 0
    ∷ 0x84
    ∷ 0
    ∷ 0
    ∷ 0
    ∷ 0
    ∷ 1
    ∷ 0
    ∷ 0
    ∷ 0
    ∷ 0
    ∷ (name_bytes label
        ++ (0 ∷ 1 ∷ 0x80 ∷ 1 ∷ 0 ∷ 0 ∷ 0 ∷ 120 ∷ 0 ∷ 4 ∷ ip.a ∷ ip.b ∷ ip.c ∷ ip.d ∷ []))

abbrev build_record : Writer → Ipv4 → Option (Bytes × ℕ)
build_record w ip = do
  w₇ ← put_u16 w 1
  w₈ ← put_u16 w₇ 0x8001
  w₉ ← put_u32 w₈ 120
  w₁₀ ← put_u16 w₉ 4
  w₁₁ ← put_u8 w₁₀ ip.a
  w₁₂ ← put_u8 w₁₁ ip.b
  w₁₃ ← put_u8 w₁₂ ip.c
  w₁₄ ← put_u8 w₁₃ ip.d
  finish w₁₄

abbrev build_reply : Writer → Bytes → Ipv4 → Option (Bytes × ℕ)
build_reply w label ip = do
  w₀ ← put_u16 w 0
  w₁ ← put_u16 w₀ 0x8400
  w₂ ← put_u16 w₁ 0
  w₃ ← put_u16 w₂ 1
  w₄ ← put_u16 w₃ 0
  w₅ ← put_u16 w₄ 0
  w₆ ← put_name w₅ label
  build_record w₆ ip

-- `build_answer` on a buffer with room for the packet writes it in front and gives its length.
pub build_answer_lem :
    (buf label : Bytes) (ip : Ipv4)
    → IsLabel label
    → length (answer_bytes label ip) ≤ length buf
    → build_answer buf label ip
      ≡ some (
        answer_bytes label ip ++ drop (length (answer_bytes label ip)) buf,
        length (answer_bytes label ip),
      )
unfolding build_answer
build_answer_lem buf label ip ok room =
    let steps : Ends (λ w. build_reply w label ip) finish (answer_bytes label ip) =
      Puts-then _ _ finish (0 ∷ 0 ∷ []) _ (put_u16-Puts 0) (
        Puts-then _ _ finish (0x84 ∷ 0 ∷ []) _ (put_u16-Puts 0x8400) (
          Puts-then _ _ finish (0 ∷ 0 ∷ []) _ (put_u16-Puts 0) (
            Puts-then _ _ finish (0 ∷ 1 ∷ []) _ (put_u16-Puts 1) (
              Puts-then _ _ finish (0 ∷ 0 ∷ []) _ (put_u16-Puts 0) (
                Puts-then _ _ finish (0 ∷ 0 ∷ []) _ (put_u16-Puts 0) (
                  Puts-then _ _ finish (name_bytes label) _ (put_name-Puts label ok) (
                    Puts-then _ _ finish (0 ∷ 1 ∷ []) _ (put_u16-Puts 1) (
                      Puts-then _ _ finish (0x80 ∷ 1 ∷ []) _ (put_u16-Puts 0x8001) (
                        Puts-then _ _ finish (0 ∷ 0 ∷ 0 ∷ 120 ∷ []) _ (put_u32-Puts 120) (
                          Puts-then _ _ finish (0 ∷ 4 ∷ []) _ (put_u16-Puts 4) (
                            Puts-then _ _ finish (ip.a ∷ []) _ (put_u8-Puts ip.a) (
                              Puts-then _ _ finish (ip.b ∷ []) _ (put_u8-Puts ip.b) (
                                Puts-then _ _ finish (ip.c ∷ []) _ (put_u8-Puts ip.c) (
                                  Puts-then _ _ finish (ip.d ∷ []) [] (put_u8-Puts ip.d)
                                    (Ends-nil finish))))))))))))))) in
    steps.run [] buf room

-- `op` fails, whatever the writer.
record Fails {A : Type 0} (op : Writer → Option A) : Type 0 where
  run : (w : Writer) → op w ≡ none

Fails-here :
    {A : Type 0} (op : Writer → Option Writer) (k : Writer → Option A)
    → Fails op
    → Fails (λ w. op w >>= k)
Fails-here op k p = record { run = λ w. ap (λ m. m >>= k) (p.run w) }

Fails-then :
    {A : Type 0} (op : Writer → Option Writer) (k : Writer → Option A)
    → Fails k
    → Fails (λ w. op w >>= k)
Fails-then op k p = record { run = λ w. at (op w) }
  where
    at : (m : Option Writer) → (m >>= k) ≡ none
    at none = refl
    at (some w) = p.run w

put_name-none :
    (w : Writer) (label : Bytes)
    → (length label ≡ 0) ⊎ (64 ≤ length label)
    → put_name w label ≡ none
unfolding put_name put_part
put_name-none w label bad =
    let refused : (length label == 0 || ltb 63 (length label)) ≡ true = ground arith in rw refused

put_u16s-Fails :
    {A : Type 0} (a b c d e f : ℕ) (k : Writer → Option A)
    → Fails k
    → Fails (λ w. do
      w₀ ← put_u16 w a
      w₁ ← put_u16 w₀ b
      w₂ ← put_u16 w₁ c
      w₃ ← put_u16 w₂ d
      w₄ ← put_u16 w₃ e
      w₅ ← put_u16 w₄ f
      k w₅)
put_u16s-Fails a b c d e f k p =
    Fails-then (λ w. put_u16 w a) _
      (Fails-then (λ w. put_u16 w b) _
        (Fails-then (λ w. put_u16 w c) _
          (Fails-then (λ w. put_u16 w d) _
            (Fails-then (λ w. put_u16 w e) _ (Fails-then (λ w. put_u16 w f) k p)))))

abbrev build_question : Writer → Option (Bytes × ℕ)
build_question w = do w₇ ← put_u16 w 1; w₈ ← put_u16 w₇ 1; finish w₈

-- A label that DNS does not admit fails both builds, whatever the buffer.
pub build-none :
    (buf label : Bytes) (ip : Ipv4)
    → (length label ≡ 0) ⊎ (64 ≤ length label)
    → (build_query buf label ≡ none) × (build_answer buf label ip ≡ none)
unfolding build_query build_answer
build-none buf label ip bad =
    let named : Fails (λ w. put_name w label) = record { run = λ w. put_name-none w label bad } in
    let query =
      put_u16s-Fails 0 0 1 0 0 0 (λ w. put_name w label >>= build_question)
        (Fails-here _ build_question named) in
    let answer =
      put_u16s-Fails 0 0x8400 0 1 0 0 (λ w. put_name w label >>= λ w₆. build_record w₆ ip)
        (Fails-here _ (λ w₆. build_record w₆ ip) named) in
    (query.run (wrote [] buf), answer.run (wrote [] buf))
