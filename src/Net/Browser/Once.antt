-- ===== src/Net/Browser/Once.antt =====
-- `start_pending_browsers` over whole runs: browsers are spawned, the network comes up and frames go by, in
-- any order.
use beet_esp.Base.{suc, ◌-◌, ◌≤◌, ◌>>=◌, Option, some, length, length-append}
use beet_esp.Base.{ℕ, ◌+◌, ◌==◌, ◌≡◌, refl, sym, ◌∙◌, ap, arith, inl, inr, Bool-cases}
use beet_esp.Base.{Bool, true, false, List, [], ◌∷◌, ◌++◌, map, Bytes, if◌then◌else◌}
use beet_esp.Net.Browser.{
  Browser, World, pending_of, start_each, with_stack, start_pending_browsers,
}
use beet_esp.Net.Browser.Started.{start, start_pending_browsers-up}

pub data Change : Type 0 where
  browser_spawned : ℕ → Bytes → Change
  network_up : Change
  frame_passed : Change

abbrev pub after : World → Change → Option World
after w (browser_spawned entity service_type) = some (record w {
  browsers =
      w.browsers ++ (record { entity = entity; service_type = service_type; started = false } ∷ []);
})
after w network_up = some (record w { stack = true })
after w frame_passed = start_pending_browsers w

-- `none` is a panic on the way.
abbrev pub run : World → List Change → Option World
run w [] = some w
run w (change ∷ changes) = after w change >>= λ v. run v changes

-- Before the first browser, with slots that the other users of the pool leave.
abbrev pub empty : ℕ → World
empty slots = record { slots = slots; browsers = []; stack = false; tasks = [] }

abbrev one_if : Bool → ℕ
one_if true = 1
one_if false = 0

-- The tasks of an entity.
abbrev pub count : ℕ → List (ℕ × Bytes) → ℕ
count e [] = 0
count e (x ∷ xs) = one_if (x.0 == e) + count e xs

-- The browsers of an entity.
abbrev pub browsers_of : ℕ → List Browser → ℕ
browsers_of e [] = 0
browsers_of e (b ∷ bs) = one_if (b.entity == e) + browsers_of e bs

abbrev if_started : Bool → ℕ → ℕ
if_started true n = n
if_started false n = 0

-- Those that are started.
abbrev started_of : ℕ → List Browser → ℕ
started_of e [] = 0
started_of e (b ∷ bs) = if_started b.started (one_if (b.entity == e)) + started_of e bs

-- How many browsers some changes spawn, and how many of an entity.
abbrev pub spawns : List Change → ℕ
spawns [] = 0
spawns (browser_spawned entity service_type ∷ changes) = 1 + spawns changes
spawns (network_up ∷ changes) = spawns changes
spawns (frame_passed ∷ changes) = spawns changes

abbrev pub spawns_of : ℕ → List Change → ℕ
spawns_of e [] = 0
spawns_of e (browser_spawned entity service_type ∷ changes) =
    one_if (entity == e) + spawns_of e changes
spawns_of e (network_up ∷ changes) = spawns_of e changes
spawns_of e (frame_passed ∷ changes) = spawns_of e changes

count-append : (e : ℕ) (xs ys : List (ℕ × Bytes)) → count e (xs ++ ys) ≡ count e xs + count e ys
count-append e [] ys = omega arith
count-append e (x ∷ xs) ys = ap (λ n. one_if (x.0 == e) + n) (count-append e xs ys) ∙ omega arith

started_of-append :
    (e : ℕ) (bs cs : List Browser) → started_of e (bs ++ cs) ≡ started_of e bs + started_of e cs
started_of-append e [] cs = omega arith
started_of-append e (b ∷ bs) cs =
    ap (λ n. if_started b.started (one_if (b.entity == e)) + n) (started_of-append e bs cs)
    ∙ omega arith

started_of-start : (e : ℕ) (bs : List Browser) → started_of e (map start bs) ≡ browsers_of e bs
started_of-start e [] = refl
started_of-start e (b ∷ bs) = ap (λ n. one_if (b.entity == e) + n) (started_of-start e bs)

browsers_of-start : (e : ℕ) (bs : List Browser) → browsers_of e (map start bs) ≡ browsers_of e bs
browsers_of-start e [] = refl
browsers_of-start e (b ∷ bs) = ap (λ n. one_if (b.entity == e) + n) (browsers_of-start e bs)

-- A browser is started or pending.
started_of-pending :
    (e : ℕ) (bs : List Browser) → started_of e bs + count e (pending_of bs) ≡ browsers_of e bs
started_of-pending e [] = omega arith
started_of-pending e (b ∷ bs) = one b.started (started_of-pending e bs)
  where
    one :
        (c : Bool)
        → started_of e bs + count e (pending_of bs) ≡ browsers_of e bs
        → (if_started c (one_if (b.entity == e)) + started_of e bs)
            + count e (if c then pending_of bs else ((b.entity, b.service_type) ∷ pending_of bs))
          ≡ one_if (b.entity == e) + browsers_of e bs
    one true h = omega arith
    one false h = omega arith

pending_of-start : (bs : List Browser) → pending_of (map start bs) ≡ []
pending_of-start [] = refl
pending_of-start (b ∷ bs) = pending_of-start bs

browsers_of-append :
    (e : ℕ) (bs cs : List Browser) → browsers_of e (bs ++ cs) ≡ browsers_of e bs + browsers_of e cs
browsers_of-append e [] cs = omega arith
browsers_of-append e (b ∷ bs) cs =
    ap (λ n. one_if (b.entity == e) + n) (browsers_of-append e bs cs) ∙ omega arith

length-pending_of-snoc :
    (bs : List Browser) (entity : ℕ) (service_type : Bytes)
    → length (
        pending_of
          (bs ++ (record { entity = entity; service_type = service_type; started = false } ∷ [])))
      ≡ suc (length (pending_of bs))
length-pending_of-snoc [] entity service_type = refl
length-pending_of-snoc (b ∷ bs) entity service_type =
    let rest = length-pending_of-snoc bs entity service_type in
    elim (Bool-cases b.started) [
      | inl running ↦ rw running rest
      | inr waiting ↦ rw waiting (ap suc rest)
    ]

-- Between the changes: `m` browsers were spawned, `of` of an entity; each has its task or is pending, and each
-- task has a slot of the `n`.
record Kept (n m : ℕ) (of : ℕ → ℕ) (w : World) : Type 0 where
  balanced : (e : ℕ) → count e w.tasks ≡ started_of e w.browsers
  totals : (e : ℕ) → browsers_of e w.browsers ≡ of e
  room : w.slots + length w.tasks ≡ n
  parts : length w.tasks + length (pending_of w.browsers) ≡ m

-- Before the network is up nothing is started.
start_pending_browsers-down : (w : World) → w.stack ≡ false → start_pending_browsers w ≡ some w
unfolding start_pending_browsers
start_pending_browsers-down w down =
    ap (λ c. if c then start_each (pending_of w.browsers) w else some w) down

-- When all are started, nothing is.
start_pending_browsers-idle :
    (slots : ℕ) (bs : List Browser) (stack : Bool) (tasks : List (ℕ × Bytes))
    → let w : World = record {
      slots = slots;
      browsers = map start bs;
      stack = stack;
      tasks = tasks;
    } in
      start_pending_browsers w ≡ some w
unfolding start_pending_browsers
start_pending_browsers-idle slots bs stack tasks =
    ap (λ l. with_stack l w) (pending_of-start bs) ∙ same stack
  where
    w : World
    w = record { slots = slots; browsers = map start bs; stack = stack; tasks = tasks }

    same : (c : Bool) → (if c then some w else some w) ≡ some w
    same true = refl
    same false = refl

-- A frame with the network up.
abbrev started_all : World → World
started_all w = record {
  slots = w.slots - length (pending_of w.browsers);
  browsers = map start w.browsers;
  stack = w.stack;
  tasks = w.tasks ++ pending_of w.browsers;
}

started_all-Kept :
    (n m : ℕ) (of : ℕ → ℕ) (w : World) → Kept n m of w → m ≤ n → Kept n m of (started_all w)
started_all-Kept n m of w kept fits = record {
  balanced = λ e.
      count-append e w.tasks (pending_of w.browsers)
      ∙ ap (λ k. k + count e (pending_of w.browsers)) (kept.balanced e)
      ∙ started_of-pending e w.browsers
      ∙ sym (started_of-start e w.browsers);
  totals = λ e. browsers_of-start e w.browsers ∙ kept.totals e;
  room = omega (arith, kept.room, kept.parts, length-append w.tasks (pending_of w.browsers));
  parts = omega (
    arith,
    kept.parts,
    length-append w.tasks (pending_of w.browsers),
    ap length (pending_of-start w.browsers),
  );
}

frame-Kept :
    (n m : ℕ) (of : ℕ → ℕ) (w : World)
    → Kept n m of w
    → m ≤ n
    → (v : World) × (start_pending_browsers w ≡ some v) × Kept n m of v
frame-Kept n m of w kept fits = elim (Bool-cases w.stack) [
  | inl up ↦ (
    started_all w,
    start_pending_browsers-up w up (omega (arith, kept.room, kept.parts)),
    started_all-Kept n m of w kept fits,
  )
  | inr down ↦ (w, start_pending_browsers-down w down, kept)
]

-- A run that ends in a world with a task for each browser, in which frames start nothing.
pub record Ends (of : ℕ → ℕ) (end : Option World) : Type 0 where
  pub world : World
  pub returns : end ≡ some world
  pub once : (e : ℕ) → count e world.tasks ≡ of e
  pub settled : start_pending_browsers world ≡ some world

abbrev pub then_up : List Change → List Change
then_up changes = changes ++ (network_up ∷ frame_passed ∷ [])

run-Ends :
    (n m : ℕ) (of : ℕ → ℕ) (w : World) (changes : List Change)
    → Kept n m of w
    → m + spawns changes ≤ n
    → Ends (λ e. of e + spawns_of e changes) (run w (then_up changes))
run-Ends n m of w [] kept fits =
    let v : World = record w { stack = true } in
    let all = started_all-Kept n m of w kept (omega arith) in
    record {
      world = started_all v;
      returns =
          ap (λ o. o >>= λ t. some t)
            (start_pending_browsers-up v refl (omega (arith, kept.room, kept.parts)));
      once = λ e. all.balanced e ∙ started_of-start e w.browsers ∙ kept.totals e ∙ omega arith;
      settled =
          start_pending_browsers-idle (w.slots - length (pending_of w.browsers)) w.browsers true
            (w.tasks ++ pending_of w.browsers);
    }
run-Ends n m of w (browser_spawned entity service_type ∷ changes) kept fits =
    let b : Browser = record { entity = entity; service_type = service_type; started = false } in
    let v : World = record w { browsers = w.browsers ++ (b ∷ []) } in
    let r =
      run-Ends n (suc m) (λ e. of e + one_if (entity == e)) v changes
        (record {
          balanced =
              λ e. kept.balanced e ∙ sym (started_of-append e w.browsers (b ∷ []) ∙ omega arith);
          totals = λ e.
              browsers_of-append e w.browsers (b ∷ [])
              ∙ ap (λ k. k + (one_if (entity == e) + 0)) (kept.totals e)
              ∙ omega arith;
          room = kept.room;
          parts = omega (arith, kept.parts, length-pending_of-snoc w.browsers entity service_type);
        })
        (omega arith) in
    record {
      world = r.world;
      returns = r.returns;
      once = λ e. r.once e ∙ omega arith;
      settled = r.settled;
    }
run-Ends n m of w (network_up ∷ changes) kept fits =
    run-Ends n m of (record w { stack = true }) changes
      (record {
        balanced = kept.balanced;
        totals = kept.totals;
        room = kept.room;
        parts = kept.parts;
      })
      fits
run-Ends n m of w (frame_passed ∷ changes) kept fits =
    let (v, passed, kept') = frame-Kept n m of w kept (omega arith) in
    let r = run-Ends n m of v changes kept' fits in
    record {
      world = r.world;
      returns = ap (λ o. o >>= λ t. run t (then_up changes)) passed ∙ r.returns;
      once = r.once;
      settled = r.settled;
    }

-- However browsers are spawned, the network comes up and frames go by, as long as no more browsers are spawned
-- than the pool has slots left: nothing panics, and once the network is up and a frame has passed, an entity
-- has as many tasks as browsers were spawned of it, and a frame that follows starts none.
pub start_pending_browsers-once :
    (slots : ℕ) (changes : List Change)
    → spawns changes ≤ slots
    → Ends (λ e. spawns_of e changes) (run (empty slots) (then_up changes))
start_pending_browsers-once slots changes fits =
    let r =
      run-Ends slots 0 (λ e. 0) (empty slots) changes
        (record { balanced = λ e. refl; totals = λ e. refl; room = omega arith; parts = refl })
        (omega arith) in
    record {
      world = r.world;
      returns = r.returns;
      once = λ e. r.once e ∙ omega arith;
      settled = r.settled;
    }
