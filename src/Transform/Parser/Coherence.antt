-- ===== src/Transform/Parser/Coherence.antt =====
-- What `match` of internal/operator/transform/parser.go gives, against the regular expression
-- alone, and the invariant of the cache and the heap.
use tarunner.Base.{
  ℕ, ◌≡◌, refl, ap, ◌∙◌, ◌⊎◌, inl, inr, String, Bool, true, false, Option, none, some, List, [],
  ◌∷◌, ◌++◌, length, set, get_elem?, get_elem?-append_some, get_elem?-append_length,
  set-append_length, ◌==◌, string_eq, eq_iff, if◌then◌else◌, arith, Bool-cases, Option-cases,
}
use mathlib.Core.Path.{subst₂}
use tarunner.Base.Result.{Result, ok, err, Result-cases}
use tarunner.Base.Dict.{Dict, insert}
use tarunner.Transform.Cache
use tarunner.Transform.Cache.{MemoryCache}
use tarunner.Transform.Cache.Invariant.{IsValid, add-IsValid}
use tarunner.Transform.Cache.Reads.{get-add, add-false_iff}
use tarunner.Transform.Parser.{
  Parser, at_ref, cached, cache_add, allocate, write_body, remember, initial_values, after_parse,
  after_replace, compute, match,
}

-- What a match gives, computed from the regular expression alone.
abbrev pub with_body : Parser → String → Dict String → Dict String
with_body p value values =
    if p.replacement == ""
    then values
    else insert "body" (p.regexp.replace_all_string value p.replacement) values

unfoldable pub expected : Parser → String → Result (Dict String)
unfolding initial_values
expected p value = elim (initial_values p value) [
  | err e ↦ err e
  | ok values ↦ ok (with_body p value values)
]

abbrev pub Denotes : List (Dict String) → Result ℕ → Result (Dict String) → Type 0
Denotes heap (ok ref) (ok values) = get_elem? heap ref ≡ some values
Denotes heap (err e) (err e') = e ≡ e'
Denotes heap _ _ = ⊥

abbrev pub IsValidCache : Option (MemoryCache ℕ) → Type 0
IsValidCache none = Unit
IsValidCache (some m) = IsValid m

pub record IsCoherent (p : Parser) : Type 0 where
  pub valid : IsValidCache p.cache
  pub entries :
      (value : String) (ref : ℕ)
      → cached p.cache value ≡ some ref
      → Denotes p.heap (ok ref) (expected p value)

-- Each entry of `d` is the new one or was in `c`.
abbrev pub IsFrom : Option (MemoryCache ℕ) → Option (MemoryCache ℕ) → String → ℕ → Type 0
IsFrom c d key ref =
    (value : String) (r : ℕ)
    → cached d value ≡ some r
    → ((key ≡ value) × (ref ≡ r)) ⊎ (cached c value ≡ some r)

add-from :
    (m m' : MemoryCache ℕ) (key : String) (ref : ℕ) (written : Bool)
    → IsValid m
    → Cache.add m key ref ≡ some (m', written)
    → (value : String) (r : ℕ) → Cache.get m' value ≡ some r
    → ((key ≡ value) × (ref ≡ r)) ⊎ (Cache.get m value ≡ some r)
add-from m m' key ref true v e value r found =
    ground (arith, get-add m m' key ref value v e, eq_iff key value)
add-from m m' key ref false v e value r found =
    let same : m' ≡ m = (add-false_iff m m' key ref false v e).1 refl in inr (rw same at found)

cache_add-IsFrom :
    (c : Option (MemoryCache ℕ)) (key : String) (ref : ℕ)
    → IsValidCache c
    → (d : Option (MemoryCache ℕ)) × (cache_add c key ref ≡ some d)
      × IsValidCache d
      × IsFrom c d key ref
unfolding cache_add cached
cache_add-IsFrom none key ref v = (none, refl, tt, λ value r e. inr e)
cache_add-IsFrom (some m) key ref v =
    let (m', written, e, v', _) = add-IsValid m key ref v in
    (some m', rw e, v', λ value r. add-from m m' key ref written v e value r)

IsFrom-trans :
    (c d e : Option (MemoryCache ℕ)) (key : String) (ref : ℕ)
    → IsFrom c d key ref
    → IsFrom d e key ref
    → IsFrom c e key ref
IsFrom-trans c d e key ref f g value r found = elim (g value r found) [
  | inl here ↦ inl here
  | inr there ↦ f value r there
]

Denotes-append :
    (heap more : List (Dict String)) (r : Result ℕ) (x : Result (Dict String))
    → Denotes heap r x
    → Denotes (heap ++ more) r x
Denotes-append heap more (ok ref) (ok values) d = get_elem?-append_some heap more ref d
Denotes-append heap more (ok ref) (err e) d = d
Denotes-append heap more (err e) (ok values) d = d
Denotes-append heap more (err e) (err e') d = d

-- One more map on the heap, and entries that are old or name it, keep the invariant.
extend-IsCoherent :
    (p : Parser) (c : Option (MemoryCache ℕ)) (value : String) (values : Dict String)
    → IsCoherent p
    → IsValidCache c
    → IsFrom p.cache c value (length p.heap)
    → expected p value ≡ ok values
    → IsCoherent (record p { cache = c; heap = p.heap ++ values ∷ [] })
unfolding expected
extend-IsCoherent p c value values h v from e = record {
  valid = v;
  entries = λ k ref found. elim (from k ref found) [
    | inl (same, here) ↦
        subst₂ (λ r (k' : String). Denotes (p.heap ++ values ∷ []) (ok r) (expected p k')) here same
          (rw e (get_elem?-append_length p.heap values []))
    | inr old ↦ Denotes-append p.heap (values ∷ []) (ok ref) (expected p k) (h.entries k ref old)
  ];
}

remember_lem :
    (p : Parser) (value : String) (ref : ℕ)
    → IsValidCache p.cache
    → (c : Option (MemoryCache ℕ)) × IsValidCache c
      × IsFrom p.cache c value ref
      × (remember p value ref ≡ some (record p { cache = c }))
unfolding remember
remember_lem p value ref v =
    let (c, e, v', from) = cache_add-IsFrom p.cache value ref v in (c, v', from, rw e)

after_parse_lem :
    (p : Parser) (value : String) (ref : ℕ)
    → IsValidCache p.cache
    → (c : Option (MemoryCache ℕ)) × IsValidCache c
      × IsFrom p.cache c value ref
      × (after_parse p value ref ≡ some (record p { cache = c }))
unfolding after_parse
after_parse_lem p value ref v = elim (Bool-cases p.parse_values) [
  | inl groups ↦
      let (c, v', from, e) = remember_lem p value ref v in
      (c, v', from, ap (λ b. if b then remember p value ref else some p) groups ∙ e)
  | inr plain ↦
      (p.cache, v, (λ k r e. inr e), ap (λ b. if b then remember p value ref else some p) plain)
]

abbrev with_heap : Parser → List (Dict String) → Dict String → Parser
with_heap p heap values = record p { heap = heap ++ values ∷ [] }

write_body_lem :
    (p : Parser) (heap : List (Dict String)) (values : Dict String) (text : String)
    → write_body (with_heap p heap values) (length heap) text
      ≡ with_heap p heap (insert "body" text values)
unfolding write_body
write_body_lem p heap values text =
    let here : at_ref (heap ++ values ∷ []) (length heap) ≡ values =
      ap (λ o. elim o [ none ↦ [] | some v ↦ v ]) (get_elem?-append_length heap values []) in
    ap (λ v. record p { heap = set (heap ++ values ∷ []) (length heap) (insert "body" text v) })
      here
    ∙ ap (λ h. record p { heap = h }) (set-append_length heap values [] (insert "body" text values))

after_replace_lem :
    (p : Parser) (heap : List (Dict String)) (values : Dict String) (value : String)
    → IsValidCache p.cache
    → (c : Option (MemoryCache ℕ)) × IsValidCache c
      × IsFrom p.cache c value (length heap)
      × (after_replace (with_heap p heap values) value (length heap)
          ≡ some (record (with_heap p heap (with_body p value values)) { cache = c }))
unfolding after_replace
after_replace_lem p heap values value v =
    let text = p.regexp.replace_all_string value p.replacement in
    let q = with_heap p heap (insert "body" text values) in
    elim (Bool-cases (p.replacement == "")) [
      | inl absent ↦ (p.cache, v, (λ k r e. inr e), ground arith)
      | inr present ↦
          let (c, v', from, e) = remember_lem q value (length heap) v in
          (c, v', from, ground (arith, e, write_body_lem p heap values text))
    ]

compute_lem :
    (p : Parser) (value : String) (values : Dict String)
    → IsValidCache p.cache
    → initial_values p value ≡ ok values
    → (c : Option (MemoryCache ℕ)) × IsValidCache c
      × IsFrom p.cache c value (length p.heap)
      × (compute p value
          ≡ some (
            record (with_heap p p.heap (with_body p value values)) { cache = c },
            ok (length p.heap),
          ))
unfolding compute allocate
compute_lem p value values v e =
    let ref = length p.heap in
    let (c, vc, from, parsed) = after_parse_lem (with_heap p p.heap values) value ref v in
    let (d, vd, from', replaced) =
      after_replace_lem (record p { cache = c }) p.heap values value vc in
    (
      d,
      vd,
      IsFrom-trans p.cache c d value ref from from',
      rw (e, compute) (rw parsed (rw replaced)),
    )

compute-expected :
    (p : Parser) (value : String)
    → IsCoherent p
    → (p' : Parser) × (r : Result ℕ) × (compute p value ≡ some (p', r))
      × IsCoherent p'
      × Denotes p'.heap r (expected p value)
      × (expected p' ≡ expected p)
unfolding expected compute
compute-expected p value h = elim (Result-cases (initial_values p value)) [
  | inr (values, e) ↦
      let (c, v, from, computed) = compute_lem p value values h.valid e in
      let known : expected p value ≡ ok (with_body p value values) = rw (e, expected) in
      (
        record (with_heap p p.heap (with_body p value values)) { cache = c },
        ok (length p.heap),
        computed,
        extend-IsCoherent p c value (with_body p value values) h v from known,
        rw known (get_elem?-append_length p.heap (with_body p value values) []),
        refl,
      )
  | inl (error, e) ↦ (p, err error, rw (e, compute), h, rw (e, expected) refl, refl)
]

-- From a coherent parser `match` returns, and what it returns is what the regular expression
-- gives for the value, whether it was cached, computed, or is an error. The parser stays coherent
-- and keeps giving the same values.
pub match-expected :
    (p : Parser) (value : String)
    → IsCoherent p
    → (p' : Parser) × (r : Result ℕ) × (match p value ≡ some (p', r))
      × IsCoherent p'
      × Denotes p'.heap r (expected p value)
      × (expected p' ≡ expected p)
unfolding match
match-expected p value h = elim (Option-cases (cached p.cache value)) [
  | inr (ref, hit) ↦ (p, ok ref, rw (hit, match), h, h.entries value ref hit, refl)
  | inl miss ↦
      let (p', r, e, h', d, same) = compute-expected p value h in
      (p', r, rw (miss, match) e, h', d, same)
]
