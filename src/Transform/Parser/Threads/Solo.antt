-- ===== src/Transform/Parser/Threads/Solo.antt =====
-- A call of `match` whose steps no other goroutine comes between.
use tarunner.Base.{
  ℕ, zero, suc, ◌≡◌, refl, String, Bool, true, false, Option, none, some, List, [], ◌∷◌, ◌++◌,
  length, set, if◌then◌else◌, ◌==◌, string_eq, Bool-cases, Option-cases, inl, inr,
}
use tarunner.Base.Result.{Result, ok, err, Result-cases}
use tarunner.Base.Dict.{Dict, insert}
use tarunner.Base.Optional.{◌>>=◌}
use tarunner.Transform.Limiter
use tarunner.Transform.Cache
use tarunner.Transform.Cache.{MemoryCache}
use tarunner.Transform.Parser.{
  Parser, at_ref, cached, cache_add, allocate, write_body, remember, initial_values, after_parse,
  after_replace, compute, match,
}
use tarunner.Transform.Parser.Coherence.{IsCoherent, Denotes, expected, match-expected}
use tarunner.Transform.Parser.Threads.{
  Thread, start, missed, adding, writing, finished, Memory, advance, memory_of,
}

module _ (p : Parser) where
  unfoldable pub alone : ℕ → Memory → Thread → Option (Memory × Thread)
  unfolding advance
  alone zero s x = some (s, x)
  alone (suc n) s x = do (s', x') ← advance p s x; alone n s' x'

  alone-finished :
      (n : ℕ) (s : Memory) (value : String) (r : Result ℕ)
      → alone n s (finished value r) ≡ some (s, finished value r)
  unfolding alone
  alone-finished zero s value r = refl
  alone-finished (suc n) s value r = alone-finished n s value r

-- The call returns what the sequential code returns, in the memory that it leaves; both may block.
abbrev Returns : Option (Memory × Thread) → String → Option (Parser × Result ℕ) → Type 0
Returns o value none = o ≡ none
Returns o value (some (q, r)) = o ≡ some (memory_of q, finished value r)

-- So for the code up to the result, which is the reference.
abbrev Leaves : Option (Memory × Thread) → String → ℕ → Option Parser → Type 0
Leaves o value ref none = o ≡ none
Leaves o value ref (some q) = o ≡ some (memory_of q, finished value (ok ref))

Leaves-Returns :
    (o : Option (Memory × Thread)) (value : String) (ref : ℕ) (q : Option Parser)
    → Leaves o value ref q
    → Returns o value (q >>= λ p₂. some (p₂, ok ref))
Leaves-Returns o value ref none h = h
Leaves-Returns o value ref (some q) h = h

Leaves-Returns_bind :
    (o : Option (Memory × Thread)) (value : String) (ref : ℕ) (q : Option Parser)
    (f : Parser → Option Parser)
    → Leaves o value ref (q >>= f)
    → Returns o value (q >>= λ p₁. f p₁ >>= λ p₂. some (p₂, ok ref))
Leaves-Returns_bind o value ref none f h = h
Leaves-Returns_bind o value ref (some q) f h = Leaves-Returns o value ref (f q) h

module _ (p : Parser) where
  abbrev parser_with : Option (MemoryCache ℕ) → List (Dict String) → Parser
  parser_with c heap = record p { cache = c; heap = heap }

  abbrev alone_with :
      ℕ → Option (MemoryCache ℕ) → List (Dict String) → Thread → Option (Memory × Thread)
  alone_with n c heap x = alone p n (record { cache = c; heap = heap }) x

  -- The second `add`.
  second_add :
      (n : ℕ) (c : Option (MemoryCache ℕ)) (heap : List (Dict String)) (value : String) (ref : ℕ)
      → Leaves
          (alone_with (suc (suc n)) c heap (adding true value ref))
          value
          ref
          (remember (parser_with c heap) value ref)
  unfolding alone remember cache_add Cache.add
  second_add n none heap value ref = alone-finished p (suc n) _ value (ok ref)
  second_add n (some m) heap value ref = elim (Bool-cases (Limiter.throttled m.limiter)) [
    | inl full ↦ rw (alone, full) (alone-finished p (suc n) _ value (ok ref))
    | inr open_ ↦ elim (Option-cases (Cache.store m value ref)) [
      | inl blocks ↦ rw (alone, open_, blocks) refl
      | inr (m', stored) ↦ rw (alone, open_, stored) (alone-finished p n _ value (ok ref))
    ]
  ]

  -- From the write of the body on.
  body_turns :
      (n : ℕ) (c : Option (MemoryCache ℕ)) (heap : List (Dict String)) (value : String) (ref : ℕ)
      → Leaves
          (alone_with (suc (suc (suc n))) c heap (writing value ref))
          value
          ref
          (after_replace (parser_with c heap) value ref)
  unfolding alone after_replace write_body
  body_turns n c heap value ref = elim (Bool-cases (p.replacement == "")) [
    | inl absent ↦
        rw (alone, after_replace, absent) (alone-finished p (suc (suc n)) _ value (ok ref))
    | inr present ↦
        rw (alone, after_replace, present)
          (second_add n c
            (set heap ref
              (insert "body" (p.regexp.replace_all_string value p.replacement) (at_ref heap ref)))
            value ref)
  ]

  -- From the first `add` on.
  first_add :
      (n : ℕ) (c : Option (MemoryCache ℕ)) (heap : List (Dict String)) (value : String) (ref : ℕ)
      → Leaves
          (alone_with (suc (suc (suc (suc (suc n))))) c heap (adding false value ref))
          value
          ref
          (remember (parser_with c heap) value ref >>= λ q. after_replace q value ref)
  unfolding alone remember cache_add Cache.add
  first_add n none heap value ref = body_turns (suc n) none heap value ref
  first_add n (some m) heap value ref = elim (Bool-cases (Limiter.throttled m.limiter)) [
    | inl full ↦ rw (alone, full) (body_turns (suc n) (some m) heap value ref)
    | inr open_ ↦ elim (Option-cases (Cache.store m value ref)) [
      | inl blocks ↦ rw (alone, open_, blocks) refl
      | inr (m', stored) ↦ rw (alone, open_, stored) (body_turns n (some m') heap value ref)
    ]
  ]

  begun_turns :
      (b : Bool) (c : Option (MemoryCache ℕ)) (heap : List (Dict String)) (value : String) (ref : ℕ)
      → Leaves
          (alone_with 5 c heap (if b then adding false value ref else writing value ref))
          value
          ref
          ((if b then remember (parser_with c heap) value ref else some (parser_with c heap))
            >>= λ q. after_replace q value ref)
  begun_turns true c heap value ref = first_add 0 c heap value ref
  begun_turns false c heap value ref = body_turns 2 c heap value ref

  -- From the making of the map on.
  made_turns :
      (value : String)
      → Returns (alone_with 6 p.cache p.heap (missed value)) value (compute p value)
  unfolding alone compute after_parse allocate
  made_turns value = elim (Result-cases (initial_values p value)) [
    | inl (e, bad) ↦ rw (alone, compute, bad) (alone-finished p 5 (memory_of p) value (err e))
    | inr (values, good) ↦
        rw (alone, compute, good)
          (Leaves-Returns_bind _ value (length p.heap) _
            (λ q. after_replace q value (length p.heap))
            (begun_turns p.parse_values p.cache (p.heap ++ values ∷ []) value (length p.heap)))
  ]

  -- Seven turns of a call that no other comes between give the result of `match`, in the memory of
  -- the parser that `match` leaves; they block where `match` does.
  alone-match :
      (value : String) → Returns (alone p 7 (memory_of p) (start value)) value (match p value)
  unfolding alone match
  alone-match value = elim (Option-cases (cached p.cache value)) [
    | inr (ref, hit) ↦ rw (alone, match, hit) (alone-finished p 6 (memory_of p) value (ok ref))
    | inl miss ↦ rw (alone, match, miss) (made_turns value)
  ]

  pub alone-expected :
      (value : String)
      → IsCoherent p
      → (q : Parser) × (r : Result ℕ) × (alone p 7 (memory_of p) (start value)
          ≡ some (memory_of q, finished value r))
        × IsCoherent q
        × Denotes q.heap r (expected p value)
        × (expected q ≡ expected p)
  alone-expected value h =
      let (q, r, returned, h', d, same) = match-expected p value h in
      let turns = alone-match value in (q, r, rw returned at turns, h', d, same)
