-- ===== src/Ucpack/Stream/Chunks.antt =====
-- What comes later does not change what is found, so the chunks that a read delivers do not matter.
use mathlib.Core.List.{append_assoc}
use beet_esp.Base.{ℕ, ◌+◌, ◌≤◌, ◌≡◌, ◌≢◌, refl, sym, ◌∙◌, ap, ap₂, arith, Option, none, some}
use beet_esp.Base.{List, [], ◌∷◌, ◌++◌, Bytes, length}
use beet_esp.Base.{length-append}
use beet_esp.Ucpack.Frame.{Frame}
use beet_esp.Ucpack.Stream.{Scan, wait, skip, found, check, scan, next, resume}
use beet_esp.Ucpack.Stream.{Drains, stop, more}
use beet_esp.Ucpack.Stream.Wire.{parts, check-parts}

-- `scan` on more bytes, where it did not wait.
abbrev later : Bytes → Scan → Scan
later zs wait = wait
later zs skip = skip
later zs (found f rest) = found f (rest ++ zs)

check-append :
    (n : ℕ) (r zs : Bytes) → n ≢ 0 → n + 2 ≤ length r → check n (r ++ zs) ≡ later zs (check n r)
check-append n r zs ne h =
    let p = parts n r ne h in
    let long = ap₂ check p.counts (
      ap (λ t. t ++ zs) p.cuts
      ∙ ap (◌∷◌ p.code) (append_assoc p.payload (p.ending ∷ p.sum ∷ p.rest) zs)) in
    let short = ap₂ check p.counts p.cuts in
    long
    ∙ check-parts p.code p.payload p.ending p.sum (p.rest ++ zs)
    ∙ ground arith
    ∙ ap (later zs) (sym (short ∙ check-parts p.code p.payload p.ending p.sum p.rest))

-- A round that does not wait does the same on more bytes.
scan-append : (bs zs : Bytes) → scan bs ≢ wait → scan (bs ++ zs) ≡ later zs (scan bs)
unfolding scan
scan-append [] zs ne = absurd (ne refl)
scan-append (b ∷ []) zs ne = ground arith
scan-append (b ∷ n ∷ r) zs ne = ground (arith, check-append n r zs, length-append r zs)

-- `pop` found nothing: with more bytes it goes on from what is left.
next-none : (bs zs : Bytes) {r : Bytes} → next bs ≡ (none, r) → next (bs ++ zs) ≡ next (r ++ zs)
unfolding next
next-none [] zs h = ap (λ t. next (t ++ zs)) (ap (λ (p : Option Frame × Bytes). p.1) h)
next-none (b ∷ bs) zs {r} h = step (scan (b ∷ bs)) refl h (next-none bs zs)
  where
    step :
        (v : Scan)
        → scan (b ∷ bs) ≡ v
        → resume v (b ∷ bs) (next bs) ≡ (none, r)
        → (next bs ≡ (none, r) → next (bs ++ zs) ≡ next (r ++ zs))
        → next (b ∷ (bs ++ zs)) ≡ next (r ++ zs)
    step wait e h ih = ap (λ t. next (t ++ zs)) (ap (λ (p : Option Frame × Bytes). p.1) h)
    step skip e h ih =
        ap (λ v. resume v (b ∷ (bs ++ zs)) (next (bs ++ zs)))
          (scan-append (b ∷ bs) zs (λ w. cc) ∙ ap (later zs) e)
        ∙ ih h
    step (found f rest) e h ih = absurd (cc (ap (λ (p : Option Frame × Bytes). p.0) h))

-- `pop` found a frame: with more bytes it finds the same.
next-some :
    (bs zs : Bytes) {f : Frame} {r : Bytes}
    → next bs ≡ (some f, r)
    → next (bs ++ zs) ≡ (some f, r ++ zs)
unfolding next
next-some [] zs h = absurd (cc (ap (λ (p : Option Frame × Bytes). p.0) h))
next-some (b ∷ bs) zs {f} {r} h = step (scan (b ∷ bs)) refl h (next-some bs zs)
  where
    step :
        (v : Scan)
        → scan (b ∷ bs) ≡ v
        → resume v (b ∷ bs) (next bs) ≡ (some f, r)
        → (next bs ≡ (some f, r) → next (bs ++ zs) ≡ (some f, r ++ zs))
        → next (b ∷ (bs ++ zs)) ≡ (some f, r ++ zs)
    step wait e h ih = absurd (cc (ap (λ (p : Option Frame × Bytes). p.0) h))
    step skip e h ih =
        ap (λ v. resume v (b ∷ (bs ++ zs)) (next (bs ++ zs)))
          (scan-append (b ∷ bs) zs (λ w. cc) ∙ ap (later zs) e)
        ∙ ih h
    step (found g rest) e h ih =
        ap (λ v. resume v (b ∷ (bs ++ zs)) (next (bs ++ zs)))
          (scan-append (b ∷ bs) zs (λ w. cc) ∙ ap (later zs) e)
        ∙ ap (λ (p : Option Frame × Bytes). (p.0, p.1 ++ zs)) h

-- A drain of some bytes and, when more have come behind what was left, a drain of those, give the
-- frames of one drain of all the bytes, in order, and leave the same bytes.
pub Drains-append :
    {bs : Bytes} {fs : List Frame} {r : Bytes} (zs : Bytes) {gs : List Frame} {s : Bytes}
    → Drains bs fs r
    → Drains (r ++ zs) gs s
    → Drains (bs ++ zs) (fs ++ gs) s
Drains-append zs (stop e) (stop f) = stop (next-none _ zs e ∙ f)
Drains-append zs (stop e) (more f d) = more (next-none _ zs e ∙ f) d
Drains-append zs (more e d) d' = more (next-some _ zs e) (Drains-append zs d d')
