-- ===== src/Transform/Parser/Threads/Progress.antt =====
-- How many turns a call of `match` takes among others.
use tarunner.Base.{
  ℕ, zero, suc, ◌-◌, ◌≤◌, ◌≡◌, refl, ap, inl, inr, String, true, false, some, List, [], ◌∷◌, map,
  get_elem?, ◌==◌, nat_eq, string_eq, if◌then◌else◌, arith, Option-cases,
}
use tarunner.Base.Result.{Result}
use tarunner.Transform.Parser.{Parser}
use tarunner.Transform.Parser.Threads.{
  Thread, start, missed, adding, locking, writing, finished, Memory, advance, turn_of, Event, turn,
  limiter_tick, run,
}

abbrev pub value_of : Thread → String
value_of (start value) = value
value_of (missed value) = value
value_of (adding second value ref) = value
value_of (locking second value ref) = value
value_of (writing value ref) = value
value_of (finished value r) = value

-- A bound on the turns that a call still takes.
abbrev pub turns_left : Thread → ℕ
turns_left (start value) = 7
turns_left (missed value) = 6
turns_left (adding false value ref) = 5
turns_left (locking false value ref) = 4
turns_left (writing value ref) = 3
turns_left (adding true value ref) = 2
turns_left (locking true value ref) = 1
turns_left (finished value r) = 0

-- The turns that a schedule gives to a thread.
unfoldable pub turns : ℕ → List Event → ℕ
turns i [] = 0
turns i (turn j ∷ events) = let rest = turns i events in if i == j then suc rest else rest
turns i (limiter_tick ∷ events) = turns i events

module _ (p : Parser) where
  -- A thread for the value, with at most n turns left.
  abbrev pub IsAt : String → ℕ → Thread → Type 0
  IsAt value n x = (value_of x ≡ value) × (turns_left x ≤ n)

  advance-IsAt :
      (s s' : Memory) (x x' : Thread) (value : String) (n : ℕ)
      → advance p s x ≡ some (s', x')
      → IsAt value n x
      → IsAt value (n - 1) x'
  unfolding advance
  advance-IsAt s s' (start v) x' value n e h = ground arith
  advance-IsAt s s' (missed v) x' value n e h = ground arith
  advance-IsAt s s' (adding true v ref) x' value n e h = ground arith
  advance-IsAt s s' (adding false v ref) x' value n e h = ground arith
  advance-IsAt s s' (locking true v ref) x' value n e h = ground arith
  advance-IsAt s s' (locking false v ref) x' value n e h = ground arith
  advance-IsAt s s' (writing v ref) x' value n e h = ground arith
  advance-IsAt s s' (finished v r) x' value n e h = ground arith

  -- The thread of this number in the list.
  abbrev pub Stands : ℕ → String → ℕ → List Thread → Type 0
  Stands i value n xs = (x : Thread) × (get_elem? xs i ≡ some x) × IsAt value n x

  -- What a turn makes of the list, by the place of the thread.
  turn_of-cons :
      (j : ℕ) (s s' : Memory) (y : Thread) (xs xs' : List Thread)
      → turn_of p (suc j) s (y ∷ xs) ≡ some (s', xs')
      → (ys : List Thread) × (turn_of p j s xs ≡ some (s', ys)) × (xs' ≡ y ∷ ys)
  unfolding turn_of
  turn_of-cons j s s' y xs xs' e = elim (Option-cases (turn_of p j s xs)) [
    | inl blocks ↦ cc (rw (turn_of, blocks) at e)
    | inr ((t, ys), went) ↦ (ys, cc (went, (rw (turn_of, went) at e)), cc (rw (turn_of, went) at e))
  ]

  turn_of-head :
      (s s' : Memory) (y : Thread) (xs xs' : List Thread)
      → turn_of p 0 s (y ∷ xs) ≡ some (s', xs')
      → (y' : Thread) × (advance p s y ≡ some (s', y')) × (xs' ≡ y' ∷ xs)
  unfolding turn_of
  turn_of-head s s' y xs xs' e = elim (Option-cases (advance p s y)) [
    | inl blocks ↦ cc (rw (turn_of, blocks) at e)
    | inr ((t, y'), went) ↦ (y', cc (went, (rw (turn_of, went) at e)), cc (rw (turn_of, went) at e))
  ]

  turn_of-Stands :
      (j i : ℕ) (s s' : Memory) (xs xs' : List Thread) (value : String) (n : ℕ)
      → turn_of p j s xs ≡ some (s', xs')
      → Stands i value n xs
      → Stands i value (if i == j then n - 1 else n) xs'
  turn_of-Stands j i s s' [] xs' value n e (x, here, h) = cc
  turn_of-Stands zero zero s s' (y ∷ xs) xs' value n e (x, here, h) =
      let (y', went, made) = turn_of-head s s' y xs xs' e in
      rw made (y', refl, advance-IsAt s s' y y' value n went (ground arith))
  turn_of-Stands zero (suc i) s s' (y ∷ xs) xs' value n e (x, here, h) =
      let (y', went, made) = turn_of-head s s' y xs xs' e in rw made (x, here, ground arith)
  turn_of-Stands (suc j) zero s s' (y ∷ xs) xs' value n e (x, here, h) =
      let (ys, went, made) = turn_of-cons j s s' y xs xs' e in rw made (x, here, ground arith)
  turn_of-Stands (suc j) (suc i) s s' (y ∷ xs) xs' value n e h =
      let (ys, went, made) = turn_of-cons j s s' y xs xs' e in
      let (x', here, h') = turn_of-Stands j i s s' xs ys value n went h in
      rw made (x', here, ground arith)

  run-Stands :
      (to_uint64 : ℕ → ℕ) (events : List Event) (i : ℕ) (s s' : Memory) (xs xs' : List Thread)
      (value : String) (n : ℕ)
      → run p to_uint64 events s xs ≡ some (s', xs')
      → Stands i value n xs
      → Stands i value (n - turns i events) xs'
  unfolding run turns
  run-Stands to_uint64 [] i s s' xs xs' value n e (x, here, h) =
      let same : xs ≡ xs' = cc in rw (← same) (x, here, ground arith)
  run-Stands to_uint64 (limiter_tick ∷ events) i s s' xs xs' value n e h =
      run-Stands to_uint64 events i _ s' xs xs' value n e h
  run-Stands to_uint64 (turn j ∷ events) i s s' xs xs' value n e h =
      elim (Option-cases (turn_of p j s xs)) [
        | inl blocks ↦ cc (rw (run, blocks) at e)
        | inr ((t, ys), went) ↦
            let (x', here, h') =
              run-Stands to_uint64 events i t s' ys xs' value (if i == j then n - 1 else n)
                (rw (run, went) at e) (turn_of-Stands j i s t xs ys value n went h) in
            (x', here, ground arith)
      ]

  finished_of :
      (x : Thread) (value : String) → IsAt value 0 x → (r : Result ℕ) × (x ≡ finished value r)
  finished_of (start v) value (e, h) = absurd (omega arith)
  finished_of (missed v) value (e, h) = absurd (omega arith)
  finished_of (adding true v ref) value (e, h) = absurd (omega arith)
  finished_of (adding false v ref) value (e, h) = absurd (omega arith)
  finished_of (locking true v ref) value (e, h) = absurd (omega arith)
  finished_of (locking false v ref) value (e, h) = absurd (omega arith)
  finished_of (writing v ref) value (e, h) = absurd (omega arith)
  finished_of (finished v r) value (e, h) = (r, ap (λ k. finished k r) e)

  get_elem?-map_start :
      (values : List String) (i : ℕ) {value : String}
      → get_elem? values i ≡ some value
      → get_elem? (map start values) i ≡ some (start value)
  get_elem?-map_start [] i e = cc
  get_elem?-map_start (v ∷ values) zero e = cc
  get_elem?-map_start (v ∷ values) (suc i) e = get_elem?-map_start values i e

  -- After seven turns a call has returned, whatever the others do.
  pub run-finished :
      (to_uint64 : ℕ → ℕ) (events : List Event) (s s' : Memory) (values : List String)
      (xs : List Thread) (i : ℕ) (value : String)
      → run p to_uint64 events s (map start values) ≡ some (s', xs)
      → get_elem? values i ≡ some value
      → 7 ≤ turns i events
      → (r : Result ℕ) × (get_elem? xs i ≡ some (finished value r))
  run-finished to_uint64 events s s' values xs i value e here enough =
      let (x, stands, (v, left)) =
        run-Stands to_uint64 events i s s' (map start values) xs value 7 e
          (start value, get_elem?-map_start values i here, (refl, omega arith)) in
      let (r, same) = finished_of x value (v, omega arith) in (r, cc)
