-- ===== src/Transform/Parser/Threads/Writes.antt =====
-- The step of a call of `match` that writes the body of its map, and any step.
use tarunner.Base.{
  ℕ, zero, suc, ◌≡◌, refl, sym, ap, ◌∙◌, ◌⊎◌, inl, inr, ◌<◌, String, true, false, none, some, List,
  [], ◌∷◌, length, set, get_elem?, length-set, get_elem?-set_self, get_elem?-set_ne, ◌==◌,
  string_eq, eq_iff, arith, Bool-cases,
}
use native.Mathlib.Decide.{ℕ_discrete}
use tarunner.Base.Result.{ok}
use tarunner.Base.Dict.{Dict, insert}
use tarunner.Transform.Parser.{Parser, at_ref, initial_values}
use tarunner.Transform.Parser.Coherence.{with_body}
use tarunner.Transform.Parser.Threads.{
  Thread, start, missed, adding, locking, writing, finished, Memory, advance,
}
use tarunner.Transform.Parser.Threads.Makes.{keeps-missed}
use tarunner.Transform.Parser.Threads.Keeps.{
  Before, unchanged, keeps-start, keeps-adding, keeps-locking,
}
use tarunner.Transform.Parser.Threads.Holds.{WillWrite, IsMadeFor, Holds, Owns, Keeps}

lt_of_get_elem? {ℓ} :
    {A : Type ℓ} (xs : List A) (i : ℕ) {y : A} → get_elem? xs i ≡ some y → i < length xs
lt_of_get_elem? [] i e = cc
lt_of_get_elem? (x ∷ xs) zero e = omega arith
lt_of_get_elem? (x ∷ xs) (suc i) e = omega (arith, lt_of_get_elem? xs i e)

insert_twice :
    (key text : String) (d : Dict String) → insert key text (insert key text d) ≡ insert key text d
unfolding insert
insert_twice key text [] = ground (arith, eq_iff key key)
insert_twice key text ((k, v) ∷ d) = ground (arith, insert_twice key text d, eq_iff k key)

-- What is read where the body has been written.
get_elem?-written :
    (heap : List (Dict String)) (ref : ℕ) (d : Dict String) (text : String)
    → get_elem? heap ref ≡ some d
    → get_elem? (set heap ref (insert "body" text (at_ref heap ref))) ref
      ≡ some (insert "body" text d)
get_elem?-written heap ref d text e =
    let here : at_ref heap ref ≡ d = ap (λ o. elim o [ none ↦ [] | some v ↦ v ]) e in
    get_elem?-set_self heap ref _ (lt_of_get_elem? heap ref e)
    ∙ ap (λ m. some (insert "body" text m)) here

module _ (p : Parser) (made_for : List String) (P : ℕ → Type 0) where
  abbrev text_for : String → String
  text_for value = p.regexp.replace_all_string value p.replacement

  abbrev with_text : Memory → String → ℕ → Memory
  with_text s value ref = record s {
    heap = set s.heap ref (insert "body" (text_for value) (at_ref s.heap ref));
  }

  -- The map is complete behind the write of the body, whether it was so before or not.
  written-full :
      (s : Memory) (value : String) (ref : ℕ)
      → (p.replacement == "") ≡ false
      → Before p made_for P s (writing value ref)
      → IsMadeFor made_for ref value
      → (values : Dict String) × (initial_values p value ≡ ok values)
        × (get_elem? (with_text s value ref).heap ref ≡ some (with_body p value values))
  written-full s value ref present h o =
      let (values, e, d) = h.filled ref value o in
      (
        values,
        e,
        elim d [
          | inl full ↦
              get_elem?-written s.heap ref (with_body p value values) (text_for value) full
              ∙ rw present (ap some (insert_twice "body" (text_for value) values))
          | inr (bare, _) ↦
              get_elem?-written s.heap ref values (text_for value) bare ∙ rw present refl
        ],
      )

  writing-Holds :
      (s : Memory) (value : String) (ref : ℕ)
      → (p.replacement == "") ≡ false
      → Before p made_for P s (writing value ref)
      → IsMadeFor made_for ref value
      → Holds p made_for (with_text s value ref) (λ r. WillWrite r (adding true value ref) ⊎ P r)
  writing-Holds s value ref present h o = record {
    valid = h.valid;
    same_length = h.same_length ∙ sym (length-set s.heap ref _);
    entries = h.entries;
    filled = λ r k own. elim (ℕ_discrete ref r) [
      | yes same ↦
          let (values, e, full) = written-full s value ref present h o in
          let key : value ≡ k = cc in (values, rw (← key) e, inl (rw (← key, ← same) full))
      | no other ↦
          let (values, e, d) = h.filled r k own in
          let kept = get_elem?-set_ne s.heap ref r _ other in
          (
            values,
            e,
            elim d [
              | inl full ↦ inl (kept ∙ full)
              | inr (bare, inl mine) ↦ absurd (other mine)
              | inr (bare, inr later) ↦ inr (kept ∙ bare, inr later)
            ],
          )
    ];
  }

  -- Without a replacement the map is complete as it is.
  plain-Holds :
      (s : Memory) (value : String) (ref : ℕ)
      → (p.replacement == "") ≡ true
      → Before p made_for P s (writing value ref)
      → Holds p made_for s (λ r. WillWrite r (finished value (ok ref)) ⊎ P r)
  plain-Holds s value ref absent h = record {
    valid = h.valid;
    same_length = h.same_length;
    entries = h.entries;
    filled = λ r k own.
        let (values, e, d) = h.filled r k own in
        (values, e, elim d [ inl full ↦ inl full | inr (bare, _) ↦ inl (bare ∙ rw absent refl) ]);
  }

  keeps-writing :
      (s : Memory) (value : String) (ref : ℕ)
      → Before p made_for P s (writing value ref)
      → IsMadeFor made_for ref value
      → Keeps p made_for s (writing value ref) P
  unfolding advance
  keeps-writing s value ref h o = elim (Bool-cases (p.replacement == "")) [
    | inl absent ↦
        rw (advance, absent)
          (
            s,
            finished value (ok ref),
            made_for,
            refl,
            (λ r k own. own),
            plain-Holds s value ref absent h,
            o,
          )
    | inr present ↦
        rw (advance, present)
          (
            with_text s value ref,
            adding true value ref,
            made_for,
            refl,
            (λ r k own. own),
            writing-Holds s value ref present h o,
            o,
          )
  ]

  pub advance-Keeps :
      (s : Memory) (x : Thread)
      → Before p made_for P s x
      → Owns p made_for x
      → Keeps p made_for s x P
  advance-Keeps s (start value) h o = keeps-start p made_for P s value h
  advance-Keeps s (missed value) h o = keeps-missed p made_for P s value h
  advance-Keeps s (adding second value ref) h o =
      keeps-adding p made_for P s.cache s.heap second value ref h o
  advance-Keeps s (locking second value ref) h o = keeps-locking p made_for P s second value ref h o
  advance-Keeps s (writing value ref) h o = keeps-writing s value ref h o
  advance-Keeps s (finished value r) h o =
      unchanged p made_for P s (finished value r) (finished value r) h (unfold advance in refl)
        (λ k w. w) o
