-- ===== src/Net/Http/Chunks.antt =====
-- `read_http` of `src/net/http_server.rs`: what it reads does not depend on how the message is cut
-- into chunks, and its buffer is bounded.
use beet_esp.Base.{ℕ, suc, ◌+◌, ◌%◌, ◌^◌, ◌≤◌, ◌<◌, ◌≡◌, refl, sym, ◌∙◌, ap, arith, inl, inr}
use beet_esp.Base.{true, false, Option, none, some, List, [], ◌∷◌, ◌++◌, map, Bool-cases}
use beet_esp.Base.{Bytes, length, length-append, take, take-append_left, leb, leb_iff, All}
use mathlib.Core.Path.{subst}
use mathlib.Core.List.{append_assoc, append-nil}
use beet_esp.Net.Http.{Reads, HttpExt, HttpLaws}
use beet_esp.Net.Http.Server.{cap, body_in, is_whole, read_turn, read_http}

-- The bytes of the chunks, in their order.
abbrev pub concat : List Bytes → Bytes
concat [] = []
concat (c ∷ cs) = c ++ concat cs

-- A read that is not the end of the stream.
abbrev pub IsChunk : Bytes → Type 0
IsChunk c = 0 < length c

module _ {Request Response : Type 0} (ext : HttpExt Request Response) where
  -- A header that ends at `e` and announces the rest of the message.
  abbrev pub IsMessage : Bytes → ℕ → Type 0
  IsMessage m e =
      (ext.find_header_end m ≡ some e)
      × (e + ext.parse_content_length (take e m) ≡ length m)
      × (0 < e)
      × (length m < cap)

module _ {Request Response : Type 0} (ext : HttpExt Request Response) (laws : HttpLaws ext) where
  is_whole-message : (m : Bytes) (e : ℕ) → IsMessage ext m e → is_whole ext m ≡ true
  unfolding is_whole
  is_whole-message m e (found, size, positive, fits) =
      let small : (e + ext.parse_content_length (take e m)) % 2 ^ 32 ≤ length m = omega arith in
      rw (found) ((leb_iff _ _).1 small)

  -- Fewer bytes are not the whole.
  body_in-prefix :
      (xs ys : Bytes) (e : ℕ) (found : Option ℕ)
      → IsMessage ext (xs ++ ys) e
      → length xs < length (xs ++ ys)
      → ext.find_header_end xs ≡ found
      → body_in ext xs found ≡ false
  body_in-prefix xs ys e none message shorter eq = refl
  body_in-prefix xs ys e (some e2) (found, size, positive, fits) shorter eq =
      let same : e ≡ e2 = cc (laws.end_stays xs ys eq, found) in
      let inside : e2 ≤ length xs = laws.end_inside xs eq in
      let exact : e2 + ext.parse_content_length (take e2 xs) ≡ length (xs ++ ys) =
        ap (λ t. e2 + ext.parse_content_length t) (sym (take-append_left e2 xs ys inside))
        ∙ ap (λ k. k + ext.parse_content_length (take k (xs ++ ys))) (sym same)
        ∙ size in
      ground arith

  is_whole-prefix :
      (xs ys : Bytes) (e : ℕ)
      → IsMessage ext (xs ++ ys) e
      → length xs < length (xs ++ ys)
      → is_whole ext xs ≡ false
  unfolding is_whole
  is_whole-prefix xs ys e message shorter =
      body_in-prefix xs ys e (ext.find_header_end xs) message shorter refl

  read_turn-whole :
      (m : Bytes) (e : ℕ) (later : Option (Bytes × Reads)) (rest : Reads)
      → IsMessage ext m e
      → read_turn ext m later rest ≡ some (m, rest)
  read_turn-whole m e later rest message = rw (is_whole-message m e message) refl

  read_turn-prefix :
      (xs ys : Bytes) (e : ℕ) (later : Option (Bytes × Reads)) (rest : Reads)
      → IsMessage ext (xs ++ ys) e
      → length xs < length (xs ++ ys)
      → read_turn ext xs later rest ≡ later
  read_turn-prefix xs ys e later rest message shorter =
      let (found, size, positive, fits) = message in
      let room : leb cap (length xs) ≡ false = ground arith in
      rw (is_whole-prefix xs ys e message shorter, room) refl

  -- A message comes out whole, and nothing after it is read, in whatever chunks it arrives.
  pub read_http-chunks :
      (buf : Bytes) (cs : List Bytes) (rest : Reads) (m : Bytes) (e : ℕ)
      → IsMessage ext m e
      → buf ++ concat cs ≡ m
      → length buf < length m
      → All IsChunk cs
      → read_http ext buf (map some cs ++ rest) ≡ some (m, rest)
  unfolding read_http
  read_http-chunks buf [] rest m e message eq shorter chunks =
      absurd (omega (arith, ap length (sym (append-nil buf) ∙ eq)))
  read_http-chunks buf ([] ∷ cs) rest m e message eq shorter (h, chunks) = absurd (omega arith)
  read_http-chunks buf ((b ∷ bs) ∷ []) rest m e message eq shorter chunks =
      let whole : buf ++ (b ∷ bs) ≡ m = ap (λ t. buf ++ (b ∷ t)) (sym (append-nil bs)) ∙ eq in
      ap (λ t. read_turn ext t (read_http ext t rest) rest) whole
      ∙ read_turn-whole m e (read_http ext m rest) rest message
  read_http-chunks buf ((b ∷ bs) ∷ c ∷ cs) rest m e message eq shorter (h, chunks) =
      let now : (buf ++ (b ∷ bs)) ++ concat (c ∷ cs) ≡ m =
        append_assoc buf (b ∷ bs) (concat (c ∷ cs)) ∙ eq in
      let less : length (buf ++ (b ∷ bs)) < length m =
        let (nonempty, others) = chunks in
        omega (
          arith,
          ap length (sym now),
          length-append (buf ++ (b ∷ bs)) (c ++ concat cs),
          length-append c (concat cs),
        ) in
      read_turn-prefix (buf ++ (b ∷ bs)) (concat (c ∷ cs)) e
        (read_http ext (buf ++ (b ∷ bs)) (map some (c ∷ cs) ++ rest)) (map some (c ∷ cs) ++ rest)
        (subst (λ t. IsMessage ext t e) (sym now) message) (omega (arith, ap length now))
      ∙ read_http-chunks (buf ++ (b ∷ bs)) (c ∷ cs) rest m e message now less chunks

  -- A message of fewer than 8192 bytes, whose header is found and announces its body's length, is read whole, in whatever
  -- chunks it arrives and whether or not the connection stays open after it, and no later read is
  -- consumed.
  pub read_http-whole :
      (cs : List Bytes) (rest : Reads) (e : ℕ)
      → IsMessage ext (concat cs) e
      → All IsChunk cs
      → read_http ext [] (map some cs ++ rest) ≡ some (concat cs, rest)
  read_http-whole cs rest e message chunks =
      let (found, size, positive, fits) = message in
      read_http-chunks [] cs rest (concat cs) e message refl (omega arith) chunks

-- What a read of 512 bytes gives.
abbrev pub IsRead : Option Bytes → Type 0
IsRead none = Unit
IsRead (some bs) = length bs ≤ 512

-- It is done, within the bound.
abbrev pub IsReadWithin : ℕ → Option (Bytes × Reads) → Type 0
IsReadWithin n none = ⊥
IsReadWithin n (some (raw, rest)) = length raw < n

module _ {Request Response : Type 0} (ext : HttpExt Request Response) where
  read_turn-within :
      (buf : Bytes) (later : Option (Bytes × Reads)) (rest : Reads)
      → length buf < cap + 512
      → (length buf < cap → IsReadWithin (cap + 512) later)
      → IsReadWithin (cap + 512) (read_turn ext buf later rest)
  read_turn-within buf later rest fits next = elim (Bool-cases (is_whole ext buf)) [
    | inl e ↦ rw e fits
    | inr e ↦ elim (Bool-cases (leb cap (length buf))) [
      | inl f ↦ rw (e, f) fits
      | inr f ↦ rw (e, f) (next (ground arith))
    ]
  ]

  read_http-within :
      (buf : Bytes) (reads : Reads)
      → length buf < cap
      → cap ≤ length buf + length reads
      → All IsRead reads
      → IsReadWithin (cap + 512) (read_http ext buf reads)
  unfolding read_http
  read_http-within buf [] room many h = absurd (omega arith)
  read_http-within buf (none ∷ rest) room many h = omega arith
  read_http-within buf (some [] ∷ rest) room many h = omega arith
  read_http-within buf (some (b ∷ bs) ∷ rest) room many (h, hs) =
      let grown : length (buf ++ (b ∷ bs)) ≡ length buf + suc (length bs) =
        length-append buf (b ∷ bs) in
      read_turn-within (buf ++ (b ∷ bs)) (read_http ext (buf ++ (b ∷ bs)) rest) rest (omega arith)
        (λ small. read_http-within (buf ++ (b ∷ bs)) rest small (omega arith) hs)

  -- After `cap` reads at the latest, of at most 512 bytes each, the reading ends, with fewer than
  -- `cap + 512` bytes.
  pub read_http-ends :
      (reads : Reads)
      → cap ≤ length reads
      → All IsRead reads
      → IsReadWithin (cap + 512) (read_http ext [] reads)
  read_http-ends reads many h = read_http-within [] reads (omega arith) (omega arith) h
