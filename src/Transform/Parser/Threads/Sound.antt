-- ===== src/Transform/Parser/Threads/Sound.antt =====
-- What calls of `match` that run at the same time give, under every schedule.
use tarunner.Base.{
  ℕ, zero, suc, ◌≡◌, refl, sym, ap, ◌∙◌, ◌⊎◌, inl, inr, String, Option, none, some, List, [], ◌∷◌,
  map, length, get_elem?, All, string_eq,
}
use tarunner.Base.Result.{Result, ok, err}
use tarunner.Base.Dict.{Dict}
use tarunner.Transform.Cache
use tarunner.Transform.Cache.{MemoryCache}
use tarunner.Transform.Parser.{Parser, cached, initial_values}
use tarunner.Transform.Parser.Coherence.{IsCoherent, IsValidCache, Denotes, expected}
use tarunner.Transform.Parser.Threads.{
  Thread, start, missed, adding, locking, writing, finished, Memory, turn_of, ticked, Event, turn,
  limiter_tick, run, memory_of,
}
use tarunner.Transform.Parser.Threads.Holds.{
  WillWrite, Pending, Holds, Owns, Grows, Owns-Grows, Holds-writers,
}
use tarunner.Transform.Parser.Threads.Writes.{advance-Keeps}

assoc_right : {A B C : Type 0} → (A ⊎ B) ⊎ C → A ⊎ (B ⊎ C)
assoc_right (inl (inl a)) = inl a
assoc_right (inl (inr b)) = inr (inl b)
assoc_right (inr c) = inr (inr c)

swap_first : {A B C : Type 0} → (A ⊎ B) ⊎ C → B ⊎ (A ⊎ C)
swap_first (inl (inl a)) = inr (inl a)
swap_first (inl (inr b)) = inl b
swap_first (inr c) = inr (inr c)

assoc_left : {A B C : Type 0} → A ⊎ (B ⊎ C) → (A ⊎ B) ⊎ C
assoc_left (inl a) = inl (inl a)
assoc_left (inr (inl b)) = inl (inr b)
assoc_left (inr (inr c)) = inr c

swap_back : {A B C : Type 0} → B ⊎ (A ⊎ C) → (A ⊎ B) ⊎ C
swap_back (inl b) = inl (inr b)
swap_back (inr (inl a)) = inl (inl a)
swap_back (inr (inr c)) = inr c

ticked-IsValidCache :
    (to_uint64 : ℕ → ℕ) (c : Option (MemoryCache ℕ))
    → IsValidCache c
    → IsValidCache (ticked to_uint64 c)
unfolding ticked
ticked-IsValidCache to_uint64 none v = tt
ticked-IsValidCache to_uint64 (some m) v = record {
  bounded = v.bounded;
  positive = v.positive;
  distinct = v.distinct;
  queued = v.queued;
}

cached-ticked :
    (to_uint64 : ℕ → ℕ) (c : Option (MemoryCache ℕ)) (value : String)
    → cached (ticked to_uint64 c) value ≡ cached c value
unfolding ticked cached Cache.get
cached-ticked to_uint64 none value = refl
cached-ticked to_uint64 (some m) value = refl

no_maps : (ref : ℕ) (x : Result (Dict String)) → Denotes [] (ok ref) x → ⊥
no_maps ref (ok values) d = cc
no_maps ref (err e) d = d

module _ (p : Parser) where
  All-Owns-Grows :
      (made_for made_for' : List String) (xs : List Thread)
      → Grows p made_for made_for'
      → All (Owns p made_for) xs
      → All (Owns p made_for') xs
  All-Owns-Grows made_for made_for' [] g h = tt
  All-Owns-Grows made_for made_for' (x ∷ xs) g (h, hs) =
      (Owns-Grows p made_for made_for' x g h, All-Owns-Grows made_for made_for' xs g hs)

  -- What holds of some threads and their memory, beside others that will write into the maps of P.
  abbrev KeepAll : List String → Memory → List Thread → (ℕ → Type 0) → Type 0
  KeepAll made_for s xs P = Holds p made_for s (λ r. Pending r xs ⊎ P r) × All (Owns p made_for) xs

  turn_of-KeepAll :
      (i : ℕ) (made_for : List String) (s : Memory) (xs : List Thread) (P : ℕ → Type 0)
      → KeepAll made_for s xs P
      → (s' : Memory) × (xs' : List Thread) × (made_for' : List String) × (turn_of p i s xs
          ≡ some (s', xs'))
        × Grows p made_for made_for'
        × KeepAll made_for' s' xs' P
  unfolding turn_of
  turn_of-KeepAll i made_for s [] P h = (s, [], made_for, refl, (λ r k o. o), h)
  turn_of-KeepAll zero made_for s (x ∷ xs) P (h, (o, os)) =
      let h₁ =
        Holds-writers p made_for s _ (λ r. WillWrite r x ⊎ (Pending r xs ⊎ P r)) (λ r. assoc_right)
          h in
      let (s', x', made_for', e, g, h', o') =
        advance-Keeps p made_for (λ r. Pending r xs ⊎ P r) s x h₁ o in
      (
        s',
        x' ∷ xs,
        made_for',
        rw (e, turn_of) refl,
        g,
        (
          Holds-writers p made_for' s' _ _ (λ r. assoc_left) h',
          (o', All-Owns-Grows made_for made_for' xs g os),
        ),
      )
  turn_of-KeepAll (suc i) made_for s (x ∷ xs) P (h, (o, os)) =
      let h₁ =
        Holds-writers p made_for s _ (λ r. Pending r xs ⊎ (WillWrite r x ⊎ P r)) (λ r. swap_first)
          h in
      let (s', xs', made_for', e, g, (h', os')) =
        turn_of-KeepAll i made_for s xs (λ r. WillWrite r x ⊎ P r) (h₁, os) in
      (
        s',
        x ∷ xs',
        made_for',
        rw (e, turn_of) refl,
        g,
        (
          Holds-writers p made_for' s' _ _ (λ r. swap_back) h',
          (Owns-Grows p made_for made_for' x g o, os'),
        ),
      )

  run-KeepAll :
      (to_uint64 : ℕ → ℕ) (events : List Event) (made_for : List String) (s : Memory)
      (xs : List Thread)
      → KeepAll made_for s xs (λ r. ⊥)
      → (s' : Memory) × (xs' : List Thread) × (made_for' : List String) × (run p to_uint64 events s
            xs
          ≡ some (s', xs'))
        × KeepAll made_for' s' xs' (λ r. ⊥)
  unfolding run
  run-KeepAll to_uint64 [] made_for s xs h = (s, xs, made_for, refl, h)
  run-KeepAll to_uint64 (turn i ∷ events) made_for s xs h =
      let (s', xs', made_for', e, _, h') = turn_of-KeepAll i made_for s xs (λ r. ⊥) h in
      let (s'', xs'', made_for'', e', h'') = run-KeepAll to_uint64 events made_for' s' xs' h' in
      (s'', xs'', made_for'', rw (e, run) e', h'')
  run-KeepAll to_uint64 (limiter_tick ∷ events) made_for s xs (h, os) =
      run-KeepAll to_uint64 events made_for (record s { cache = ticked to_uint64 s.cache }) xs
        (
          record {
            valid = ticked-IsValidCache to_uint64 s.cache h.valid;
            same_length = h.same_length;
            entries = λ k r found. h.entries k r (sym (cached-ticked to_uint64 s.cache k) ∙ found);
            filled = h.filled;
          },
          os,
        )

  -- The map of the groups alone, to which one of the threads will add the body.
  abbrev pub IsBare : List (Dict String) → List Thread → String → Result ℕ → Type 0
  IsBare heap xs value r =
      (ref : ℕ) × (values : Dict String) × (r ≡ ok ref)
      × (initial_values p value ≡ ok values)
      × (get_elem? heap ref ≡ some values)
      × Pending ref xs

  abbrev pub HasResult : List (Dict String) → List Thread → Thread → Type 0
  HasResult heap xs (finished value r) = Denotes heap r (expected p value) ⊎ IsBare heap xs value r
  HasResult heap xs _ = Unit

  Owns-HasResult :
      (made_for : List String) (s : Memory) (xs : List Thread) (x : Thread)
      → Holds p made_for s (λ r. Pending r xs ⊎ ⊥)
      → Owns p made_for x
      → HasResult s.heap xs x
  unfolding expected
  Owns-HasResult made_for s xs (start value) h o = tt
  Owns-HasResult made_for s xs (missed value) h o = tt
  Owns-HasResult made_for s xs (adding second value ref) h o = tt
  Owns-HasResult made_for s xs (locking second value ref) h o = tt
  Owns-HasResult made_for s xs (writing value ref) h o = tt
  Owns-HasResult made_for s xs (finished value (err e)) h o = inl (rw (expected, o) refl)
  Owns-HasResult made_for s xs (finished value (ok ref)) h o =
      let (values, e, d) = h.filled ref value o in
      elim d [
        | inl full ↦ inl (rw (expected, e) full)
        | inr (bare, inl w) ↦ inr (ref, values, refl, e, bare, w)
        | inr (bare, inr none') ↦ absurd none'
      ]

  All-HasResult :
      (made_for : List String) (s : Memory) (xs ys : List Thread)
      → Holds p made_for s (λ r. Pending r xs ⊎ ⊥)
      → All (Owns p made_for) ys
      → All (HasResult s.heap xs) ys
  All-HasResult made_for s xs [] h o = tt
  All-HasResult made_for s xs (y ∷ ys) h (o, os) =
      (Owns-HasResult made_for s xs y h o, All-HasResult made_for s xs ys h os)

  All-Owns-start : (values : List String) → All (Owns p []) (map start values)
  All-Owns-start [] = tt
  All-Owns-start (value ∷ values) = (tt, All-Owns-start values)

  -- From a coherent parser with no maps yet.
  pub run-HasResult :
      (to_uint64 : ℕ → ℕ) (events : List Event) (values : List String)
      → IsCoherent p
      → p.heap ≡ []
      → (s : Memory) × (xs : List Thread) × (run p to_uint64 events (memory_of p) (map start values)
          ≡ some (s, xs))
        × All (HasResult s.heap xs) xs
  unfolding expected
  run-HasResult to_uint64 events values h e =
      let (s, xs, made_for, ran, (h', os)) =
        run-KeepAll to_uint64 events [] (memory_of p) (map start values) (
          record {
            valid = h.valid;
            same_length = ap length (sym e);
            entries =
                λ k r found. absurd (no_maps r (expected p k) (rw e at (h.entries k r found)));
            filled = λ r k own. cc;
          },
          All-Owns-start values,
        ) in
      (s, xs, ran, All-HasResult made_for s xs xs h' os)
