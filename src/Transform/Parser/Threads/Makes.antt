-- ===== src/Transform/Parser/Threads/Makes.antt =====
-- The step of a call of `match` that makes its map.
use tarunner.Base.{
  ℕ, zero, suc, ◌≡◌, refl, sym, ap, ◌∙◌, ◌⊎◌, inl, inr, String, Bool, true, false, some, List, [],
  ◌∷◌, ◌++◌, length, get_elem?, length-append, get_elem?-append_some, get_elem?-append_length,
  string_eq, if◌then◌else◌, arith,
}
use tarunner.Base.Result.{ok, err, Result-cases}
use tarunner.Base.Dict.{Dict}
use tarunner.Transform.Parser.{Parser, initial_values}
use tarunner.Transform.Parser.Threads.{Thread, missed, adding, writing, finished, Memory, advance}
use tarunner.Transform.Parser.Threads.Keeps.{Before, unchanged}
use tarunner.Transform.Parser.Threads.Holds.{WillWrite, IsMadeFor, Holds, Owns, Keeps}

get_elem?-append_one {ℓ} :
    {A : Type ℓ} (xs : List A) (x : A) (i : ℕ) {y : A}
    → get_elem? (xs ++ x ∷ []) i ≡ some y
    → (get_elem? xs i ≡ some y) ⊎ ((length xs ≡ i) × (x ≡ y))
get_elem?-append_one [] x zero e = inr (refl, cc)
get_elem?-append_one [] x (suc i) e = cc
get_elem?-append_one (z ∷ xs) x zero e = inl e
get_elem?-append_one (z ∷ xs) x (suc i) e = elim (get_elem?-append_one xs x i e) [
  | inl old ↦ inl old
  | inr (here, same) ↦ inr (ap suc here, same)
]

module _ (p : Parser) (made_for : List String) (P : ℕ → Type 0) where
  -- The first step behind the making of the map.
  abbrev begun : Bool → String → ℕ → Thread
  begun groups value ref = if groups then adding false value ref else writing value ref

  begun-WillWrite :
      (groups : Bool) (value : String) (ref : ℕ) → WillWrite ref (begun groups value ref)
  begun-WillWrite true value ref = refl
  begun-WillWrite false value ref = refl

  begun-Owns :
      (groups : Bool) (value : String) (ref : ℕ) (made_for' : List String)
      → IsMadeFor made_for' ref value
      → Owns p made_for' (begun groups value ref)
  begun-Owns true value ref made_for' o = o
  begun-Owns false value ref made_for' o = o

  made-Holds :
      (s : Memory) (value : String) (values : Dict String)
      → Before p made_for P s (missed value)
      → initial_values p value ≡ ok values
      → Holds p
          (made_for ++ value ∷ [])
          (record s { heap = s.heap ++ values ∷ [] })
          (λ r. WillWrite r (begun p.parse_values value (length s.heap)) ⊎ P r)
  made-Holds s value values h good = record {
    valid = h.valid;
    same_length = omega (
      arith,
      length-append {0} made_for (value ∷ []),
      length-append {0} s.heap (values ∷ []),
      h.same_length,
    );
    entries = λ k r found. get_elem?-append_some made_for (value ∷ []) r (h.entries k r found);
    filled = λ r k own. elim (get_elem?-append_one made_for value r own) [
      | inl old ↦
          let (vs, e, d) = h.filled r k old in
          (
            vs,
            e,
            elim d [
              | inl full ↦ inl (get_elem?-append_some s.heap (values ∷ []) r full)
              | inr (bare, inl w) ↦ absurd w
              | inr (bare, inr other) ↦
                  inr (get_elem?-append_some s.heap (values ∷ []) r bare, inr other)
            ],
          )
      | inr (here, same) ↦
          let last : length s.heap ≡ r = sym h.same_length ∙ here in
          (
            values,
            rw (← same) good,
            inr (
              rw (← last) (get_elem?-append_length s.heap values []),
              inl (rw (← last) (begun-WillWrite p.parse_values value (length s.heap))),
            ),
          )
    ];
  }

  pub keeps-missed :
      (s : Memory) (value : String)
      → Before p made_for P s (missed value)
      → Keeps p made_for s (missed value) P
  unfolding advance
  keeps-missed s value h = elim (Result-cases (initial_values p value)) [
    | inl (e, bad) ↦
        unchanged p made_for P s (missed value) (finished value (err e)) h (rw (advance, bad) refl)
          (λ r w. w) bad
    | inr (values, good) ↦
        rw (advance, good)
          (
            record s { heap = s.heap ++ values ∷ [] },
            begun p.parse_values value (length s.heap),
            made_for ++ value ∷ [],
            refl,
            (λ r k o. get_elem?-append_some made_for (value ∷ []) r o),
            made-Holds s value values h good,
            begun-Owns p.parse_values value (length s.heap) (made_for ++ value ∷ [])
                (rw (← h.same_length) (get_elem?-append_length made_for value [])),
          )
  ]
