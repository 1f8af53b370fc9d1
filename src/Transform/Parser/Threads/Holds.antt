-- ===== src/Transform/Parser/Threads/Holds.antt =====
-- What calls of `match` that run at the same time give, under every schedule.
use tarunner.Base.{
  ℕ, ◌≡◌, ◌⊎◌, inl, inr, String, false, some, List, [], ◌∷◌, length, get_elem?, string_eq,
}
use tarunner.Base.Result.{ok, err}
use tarunner.Base.Dict.{Dict}
use tarunner.Transform.Parser.{Parser, cached, initial_values}
use tarunner.Transform.Parser.Coherence.{IsValidCache, with_body}
use tarunner.Transform.Parser.Threads.{
  Thread, start, missed, adding, locking, writing, finished, Memory, advance,
}

-- The thread will still write the body into the map.
abbrev pub WillWrite : ℕ → Thread → Type 0
WillWrite r (adding false value ref) = ref ≡ r
WillWrite r (locking false value ref) = ref ≡ r
WillWrite r (writing value ref) = ref ≡ r
WillWrite r _ = ⊥

abbrev pub Pending : ℕ → List Thread → Type 0
Pending r [] = ⊥
Pending r (x ∷ xs) = WillWrite r x ⊎ Pending r xs

-- Of the values for which the maps of the heap were made, in order.
abbrev pub IsMadeFor : List String → ℕ → String → Type 0
IsMadeFor made_for ref value = get_elem? made_for ref ≡ some value

module _ (p : Parser) where
  -- The map of a reference is complete, or has only the groups, and some thread will write the body.
  abbrev pub IsFilled : List (Dict String) → (ℕ → Type 0) → ℕ → String → Type 0
  IsFilled heap Writer ref value =
      (values : Dict String) × (initial_values p value ≡ ok values)
      × ((get_elem? heap ref ≡ some (with_body p value values))
          ⊎ ((get_elem? heap ref ≡ some values) × Writer ref))

  pub record Holds (made_for : List String) (s : Memory) (Writer : ℕ → Type 0) : Type 0 where
    pub valid : IsValidCache s.cache
    pub same_length : length made_for ≡ length s.heap
    pub entries :
        (value : String) (ref : ℕ) → cached s.cache value ≡ some ref → IsMadeFor made_for ref value
    pub filled :
        (ref : ℕ) (value : String) → IsMadeFor made_for ref value → IsFilled s.heap Writer ref value

  abbrev pub Owns : List String → Thread → Type 0
  Owns made_for (start value) = Unit
  Owns made_for (missed value) = Unit
  Owns made_for (adding second value ref) = IsMadeFor made_for ref value
  Owns made_for (locking second value ref) = IsMadeFor made_for ref value
  Owns made_for (writing value ref) = IsMadeFor made_for ref value
  Owns made_for (finished value (ok ref)) = IsMadeFor made_for ref value
  Owns made_for (finished value (err e)) = initial_values p value ≡ err e

  -- More maps have been made.
  abbrev pub Grows : List String → List String → Type 0
  Grows made_for made_for' =
      (ref : ℕ) (value : String) → IsMadeFor made_for ref value → IsMadeFor made_for' ref value

  pub Owns-Grows :
      (made_for made_for' : List String) (x : Thread)
      → Grows made_for made_for'
      → Owns made_for x
      → Owns made_for' x
  Owns-Grows made_for made_for' (start value) g h = h
  Owns-Grows made_for made_for' (missed value) g h = h
  Owns-Grows made_for made_for' (adding second value ref) g h = g ref value h
  Owns-Grows made_for made_for' (locking second value ref) g h = g ref value h
  Owns-Grows made_for made_for' (writing value ref) g h = g ref value h
  Owns-Grows made_for made_for' (finished value (ok ref)) g h = g ref value h
  Owns-Grows made_for made_for' (finished value (err e)) g h = h

  -- Another set of writers that has those of the first.
  pub Holds-writers :
      (made_for : List String) (s : Memory) (Writer Writer' : ℕ → Type 0)
      → ((r : ℕ) → Writer r → Writer' r)
      → Holds made_for s Writer
      → Holds made_for s Writer'
  Holds-writers made_for s Writer Writer' f h = record {
    valid = h.valid;
    same_length = h.same_length;
    entries = h.entries;
    filled = λ ref value own.
        let (values, e, d) = h.filled ref value own in
        (values, e, elim d [ inl full ↦ inl full | inr (bare, w) ↦ inr (bare, f ref w) ]);
  }

  -- A step of a thread, beside others that will write into the maps of P: it returns, and keeps
  -- what holds of the memory and of the thread.
  abbrev pub Keeps : List String → Memory → Thread → (ℕ → Type 0) → Type 0
  Keeps made_for s x P =
      (s' : Memory) × (x' : Thread) × (made_for' : List String) × (advance p s x ≡ some (s', x'))
      × Grows made_for made_for'
      × Holds made_for' s' (λ r. WillWrite r x' ⊎ P r)
      × Owns made_for' x'
