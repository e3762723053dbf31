-- ===== src/Net/Browser/Started.antt =====
-- `start_pending_browsers`: one task for each browser, whenever it is spawned and the network comes up.
use mathlib.Core.List.{append_assoc, append-nil}
use beet_esp.Base.{suc, ◌-◌, ◌≤◌, ◌<◌, ◌≢◌, ap₂, arith, none, some, length}
use beet_esp.Base.{ℕ, ◌==◌, ==_iff, ◌≡◌, refl, sym, ◌∙◌, ap, inl, inr, Bool-cases}
use beet_esp.Base.{Bool, true, false, List, [], ◌∷◌, ◌++◌, map, Bytes, if◌then◌else◌}
use beet_esp.Net.Browser.{
  Browser, World, pending_of, insert_started, start_each, start_pending_browsers,
}

abbrev pub start : Browser → Browser
start b = record b { started = true }

-- What the loop does to one entity.
abbrev mark : ℕ → Browser → Browser
mark entity b = if b.entity == entity then start b else b

abbrev mark_all : List (ℕ × Bytes) → Browser → Browser
mark_all [] b = b
mark_all (x ∷ xs) b = mark_all xs (mark x.0 b)

abbrev marked : List (ℕ × Bytes) → List Browser → List Browser
marked [] bs = bs
marked (x ∷ xs) bs = marked xs (insert_started x.0 bs)

-- The loop, with slots for all.
start_each_lem :
    (pending : List (ℕ × Bytes)) (w : World)
    → length pending ≤ w.slots
    → start_each pending w
      ≡ some (record {
        slots = w.slots - length pending;
        browsers = marked pending w.browsers;
        stack = w.stack;
        tasks = w.tasks ++ pending;
      })
start_each_lem [] w room =
    let same : w.slots - 0 ≡ w.slots = omega arith in
    ap₂ (λ n l. some (record w { slots = n; tasks = l })) (sym same) (sym (append-nil w.tasks))
start_each_lem (x ∷ xs) w room =
    let left : (w.slots == 0) ≡ false = ground arith in
    let count : (w.slots - 1) - length xs ≡ w.slots - suc (length xs) = omega arith in
    rw left (
      start_each_lem xs
        (record w {
          slots = w.slots - 1;
          browsers = insert_started x.0 w.browsers;
          tasks = w.tasks ++ (x ∷ []);
        })
        (omega arith)
      ∙ ap₂
          (λ n l. some (record {
            slots = n;
            browsers = marked (x ∷ xs) w.browsers;
            stack = w.stack;
            tasks = l;
          }))
          count (append_assoc w.tasks (x ∷ []) xs))

-- Without slots for all, it panics.
start_each-exhausted :
    (pending : List (ℕ × Bytes)) (w : World)
    → w.slots < length pending
    → start_each pending w ≡ none
start_each-exhausted [] w few = absurd (omega arith)
start_each-exhausted (x ∷ xs) w few = elim (Bool-cases (w.slots == 0)) [
  | inl used_up ↦ rw used_up
  | inr left ↦
      let some_left : w.slots ≢ 0 = λ e. absurd (cc (left, (==_iff w.slots 0).1 e)) in
      rw left (
        start_each-exhausted xs
          (record w {
            slots = w.slots - 1;
            browsers = insert_started x.0 w.browsers;
            tasks = w.tasks ++ (x ∷ []);
          })
          (omega (arith, some_left)))
]

marked-cons :
    (xs : List (ℕ × Bytes)) (b : Browser) (bs : List Browser)
    → marked xs (b ∷ bs) ≡ mark_all xs b ∷ marked xs bs
marked-cons [] b bs = refl
marked-cons (x ∷ xs) b bs = marked-cons xs (mark x.0 b) (insert_started x.0 bs)

marked_nil : (xs : List (ℕ × Bytes)) → marked xs [] ≡ []
marked_nil [] = refl
marked_nil (x ∷ xs) = marked_nil xs

mark_all-start : (xs : List (ℕ × Bytes)) (b : Browser) → mark_all xs (start b) ≡ start b
mark_all-start [] b = refl
mark_all-start (x ∷ xs) b = ap (mark_all xs) (same (b.entity == x.0)) ∙ mark_all-start xs b
  where
    same : (c : Bool) → (if c then start b else start b) ≡ start b
    same true = refl
    same false = refl

-- Whoever is named is started.
mark_all-named :
    (before : List (ℕ × Bytes)) (service_type : Bytes) (after : List (ℕ × Bytes)) (b : Browser)
    → mark_all (before ++ ((b.entity, service_type) ∷ after)) b ≡ start b
mark_all-named [] service_type after b =
    ap (λ c. mark_all after (if c then start b else b)) ((==_iff b.entity b.entity).1 refl)
    ∙ mark_all-start after b
mark_all-named (x ∷ before) service_type after b = elim (Bool-cases (b.entity == x.0)) [
  | inl same ↦
      ap (λ c. mark_all (before ++ ((b.entity, service_type) ∷ after)) (if c then start b else b))
        same
      ∙ mark_all-start (before ++ ((b.entity, service_type) ∷ after)) b
  | inr other ↦
      ap (λ c. mark_all (before ++ ((b.entity, service_type) ∷ after)) (if c then start b else b))
        other
      ∙ mark_all-named before service_type after b
]

started-start : (b : Browser) → b.started ≡ true → b ≡ start b
started-start b h = ap (λ s. record b { started = s }) h

marked-pending :
    (before : List (ℕ × Bytes)) (bs : List Browser)
    → marked (before ++ pending_of bs) bs ≡ map start bs
marked-pending before [] = marked_nil (before ++ [])
marked-pending before (b ∷ bs) = elim (Bool-cases b.started) [
  | inl running ↦
      ap
        (λ c.
          marked
            (before ++ (if c then pending_of bs else ((b.entity, b.service_type) ∷ pending_of bs)))
            (b ∷ bs))
        running
      ∙ marked-cons (before ++ pending_of bs) b bs
      ∙ ap (λ r. mark_all (before ++ pending_of bs) r ∷ marked (before ++ pending_of bs) bs)
          (started-start b running)
      ∙ ap (λ r. r ∷ marked (before ++ pending_of bs) bs)
          (mark_all-start (before ++ pending_of bs) b)
      ∙ ap (λ l. start b ∷ l) (marked-pending before bs)
  | inr waiting ↦
      ap
        (λ c.
          marked
            (before ++ (if c then pending_of bs else ((b.entity, b.service_type) ∷ pending_of bs)))
            (b ∷ bs))
        waiting
      ∙ marked-cons (before ++ ((b.entity, b.service_type) ∷ pending_of bs)) b bs
      ∙ ap (λ r. r ∷ marked (before ++ ((b.entity, b.service_type) ∷ pending_of bs)) bs)
          (mark_all-named before b.service_type (pending_of bs) b)
      ∙ ap (λ l. start b ∷ marked l bs)
          (sym (append_assoc before ((b.entity, b.service_type) ∷ []) (pending_of bs)))
      ∙ ap (λ l. start b ∷ l) (marked-pending (before ++ ((b.entity, b.service_type) ∷ [])) bs)
]

-- A frame with the network up, and slots for all that is pending.
pub start_pending_browsers-up :
    (w : World)
    → w.stack ≡ true
    → length (pending_of w.browsers) ≤ w.slots
    → start_pending_browsers w
      ≡ some (record {
        slots = w.slots - length (pending_of w.browsers);
        browsers = map start w.browsers;
        stack = w.stack;
        tasks = w.tasks ++ pending_of w.browsers;
      })
unfolding start_pending_browsers
start_pending_browsers-up w up room =
    ap (λ c. if c then start_each (pending_of w.browsers) w else some w) up
    ∙ start_each_lem (pending_of w.browsers) w room
    ∙ ap
        (λ l. some (record {
          slots = w.slots - length (pending_of w.browsers);
          browsers = l;
          stack = w.stack;
          tasks = w.tasks ++ pending_of w.browsers;
        }))
        (marked-pending [] w.browsers)

-- With the network up, and more pending than there are slots, a frame panics.
pub start_pending_browsers-exhausted :
    (w : World)
    → w.stack ≡ true
    → w.slots < length (pending_of w.browsers)
    → start_pending_browsers w ≡ none
unfolding start_pending_browsers
start_pending_browsers-exhausted w up few =
    ap (λ c. if c then start_each (pending_of w.browsers) w else some w) up
    ∙ start_each-exhausted (pending_of w.browsers) w few
