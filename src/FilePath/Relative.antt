-- ===== src/FilePath/Relative.antt =====
-- What a relative path tells of its base and its target.
use tarunner.Base.{
  ◌≡◌, refl, sym, ap, ◌∙◌, ◌≢◌, inl, inr, String, ◌<>◌, starts_with, Bool, true, false, ◌||◌, List,
  [], ◌∷◌, ◌++◌, map, arith, eq_iff, ◌==◌, string_eq, Bool-cases,
}
use tarunner.Base.Result.{ok, Error, not_relative, ok_inj}
use tarunner.FilePath.{
  parse, print, join_elements, target_elements, strip, up_and_down, rel, clean, same_bool,
}
use text.Mathlib.TextLemmas.{append-nil as text_append-nil}
use mathlib.Core.List.{append-nil}
use text.Mathlib.TextPositions.{starts_with-append}

strip_lem :
    (bs ts : List String)
    → (pre : List String) × (bs ≡ pre ++ (strip bs ts).0) × (ts ≡ pre ++ (strip bs ts).1)
unfolding strip
strip_lem [] ts = ([], refl, refl)
strip_lem (b ∷ bs) [] = ([], refl, refl)
strip_lem (b ∷ bs) (t ∷ ts) = elim (Bool-cases (b == t)) [
  | inl same ↦
      let (pre, e, e') = strip_lem bs ts in
      rw same (b ∷ pre, ap (◌∷◌ b) e, rw (← (eq_iff b t).0 same) (ap (◌∷◌ b) e'))
  | inr other ↦ rw other ([], refl, refl)
]

-- A joined path begins with its first element.
join_elements-cons :
    (e : String) (es : List String) → (rest : String) × (join_elements (e ∷ es) ≡ e <> rest)
unfolding join_elements
join_elements-cons e [] = ("", sym (text_append-nil e))
join_elements-cons e (e' ∷ es) = ("/" <> join_elements (e' ∷ es), refl)

-- The test by which `GetPath` refuses a relative path.
abbrev pub is_outside : String → Bool
is_outside r = r == "." || starts_with r ".."

-- A relative path that is not outside leaves nothing of the base to go up from.
up_and_down-inside :
    (e : Error) (bs ts : List String) (r : String)
    → up_and_down e (bs, ts) ≡ ok r
    → is_outside r ≡ false
    → bs ≡ []
unfolding up_and_down
up_and_down-inside e [] ts r h o = refl
up_and_down-inside e (b ∷ bs) ts r h o =
    let (rest, j) = join_elements-cons ".." (map (λ _. "..") bs ++ ts) in
    let up : r ≡ ".." <> rest = ground (arith, j) in
    ground (arith, starts_with-append ".." rest, ap (λ s. starts_with s "..") up)

joined :
    (e : Error) (bs ts : List String) (r : String)
    → bs ≡ []
    → up_and_down e (bs, ts) ≡ ok r
    → r ≡ join_elements ts
unfolding up_and_down
joined e [] ts r down h = cc
joined e (b ∷ bs) ts r down h = cc

same_bool_lem : (a b : Bool) → same_bool a b ≡ true → a ≡ b
unfolding same_bool
same_bool_lem a b h = ground arith

-- What `Rel` has found when it answers with a path that is not outside.
up_and_down_lem :
    (e : Error) (bs ts : List String) (r : String)
    → up_and_down e (strip bs ts) ≡ ok r
    → is_outside r ≡ false
    → (rest : List String) × (ts ≡ bs ++ rest) × (r ≡ join_elements rest)
up_and_down_lem e bs ts r h o =
    let (pre, f, g) = strip_lem bs ts in
    let down : (strip bs ts).0 ≡ [] = up_and_down-inside e (strip bs ts).0 (strip bs ts).1 r h o in
    (
      (strip bs ts).1,
      g
          ∙ ap (λ l. l ++ (strip bs ts).1)
              (sym (append-nil pre) ∙ ap (λ l. pre ++ l) (sym down) ∙ sym f),
      joined e (strip bs ts).0 (strip bs ts).1 r down h,
    )

clean_lem : (path : String) → clean path ≡ print (parse path)
unfolding clean
clean_lem path = refl

-- A relative path that is not outside leads down from the base: the elements of the target are
-- those of the base and further ones, the two are not the same path, and the relative path is
-- made of the further elements.
pub rel-inside :
    (base targ r : String)
    → rel base targ ≡ ok r
    → is_outside r ≡ false
    → (rest : List String) × (target_elements (parse targ) ≡ (parse base).elements ++ rest)
      × (clean targ ≢ clean base)
      × (r ≡ join_elements rest)
      × ((parse base).rooted ≡ (parse targ).rooted)
unfolding rel
rel-inside base targ r h o = elim (Bool-cases (print (parse targ) == print (parse base))) [
  | inl same ↦
      let dot : ok "." ≡ ok r = rw (same, rel) at h in
      cc (sym (ap is_outside (ok_inj dot)) ∙ refl, o)
  | inr other ↦ elim (Bool-cases (same_bool (parse base).rooted (parse targ).rooted)) [
    | inl agree ↦
        let (rest, e, f) =
          up_and_down_lem (not_relative targ base) (parse base).elements
            (target_elements (parse targ)) r (rw (other, agree, rel) at h) o in
        (
          rest,
          e,
          rw (clean_lem targ, clean_lem base)
              (ground (arith, eq_iff (print (parse targ)) (print (parse base)))),
          f,
          same_bool_lem (parse base).rooted (parse targ).rooted agree,
        )
    | inr differ ↦ cc (rw (other, differ, rel) at h)
  ]
]
