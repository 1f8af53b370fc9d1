-- ===== src/Conf/Props/Names.antt =====
-- The names of the props that `ReadProps` of internal/conf/props.go gives.
use mathlib.Core.List.{
  Perm, Mem, Nodup, Nodup-nil, Nodup-cons, mem-cons_self, mem-cons_of_mem, not-mem-nil,
  eq-or-mem_of_mem-cons,
}
use mathlib.Core.List.Perm as Permuted
use mathlib.Core.Logic.Or
use tarunner.Base.{
  ◌≡◌, refl, sym, ap, String, true, false, some, List, [], ◌∷◌, map, inl, inr, Bool-cases, arith,
  string_eq, eq_iff,
}
use tarunner.Base.Dict.Size.{contains, contains-cons}
use tarunner.Base.Result.{ok, Result-cases, >>=-eq-ok, ok_inj}
use tarunner.Conf.Data.{Prop}
use tarunner.Conf.Props.{
  Text, int_or_zero, bool_or_false, prop_of_section, order_props, props_less, read_props, no_prop,
}
use tarunner.Conf.Props.Order.{Sorts}
use tarunner.Conf.Read.Filled.{read_each, read_all-read_each}
use tarunner.Ini.{Section, Load, HasDefaultFirst}

-- No text twice.
unfoldable pub DistinctTexts : List String → Type 0
DistinctTexts [] = Unit
DistinctTexts (k ∷ keys) = (contains k keys ≡ false) × DistinctTexts keys

abbrev pub name_of : Prop → String
name_of p = p.name

-- No two props have the same name.
abbrev pub DistinctNames : List Prop → Type 0
DistinctNames props = DistinctTexts (map name_of props)

abbrev pub title_of : Section → String
title_of s = s.name

mem_of_contains : (k : String) (keys : List String) → contains k keys ≡ true → Mem k keys
unfolding contains
mem_of_contains k [] h = cc
mem_of_contains k (j ∷ keys) h = elim (contains-cons j k keys h) [
  | inl here ↦ rw here mem-cons_self
  | inr later ↦ mem-cons_of_mem j (mem_of_contains k keys later)
]

contains_of_mem : (k : String) (keys : List String) → Mem k keys → contains k keys ≡ true
unfolding contains
contains_of_mem k [] m = absurd (not-mem-nil m)
contains_of_mem k (j ∷ keys) m =
    Or.elim (hlevel) (eq-or-mem_of_mem-cons m) (λ e. ground (arith, e, eq_iff j k))
      (λ later. ground (arith, contains_of_mem k keys later))

DistinctTexts-Nodup : (keys : List String) → DistinctTexts keys → Nodup keys
unfolding DistinctTexts
DistinctTexts-Nodup [] d = Nodup-nil
DistinctTexts-Nodup (k ∷ keys) (fresh, d) =
    Nodup-cons.1 ((λ m. cc (fresh, contains_of_mem k keys m)), DistinctTexts-Nodup keys d)

Nodup-DistinctTexts : (keys : List String) → Nodup keys → DistinctTexts keys
unfolding DistinctTexts
Nodup-DistinctTexts [] n = tt
Nodup-DistinctTexts (k ∷ keys) n = (
  elim (Bool-cases (contains k keys)) [
    | inl again ↦ absurd ((Nodup-cons.0 n).0 (mem_of_contains k keys again))
    | inr fresh ↦ fresh
  ],
  Nodup-DistinctTexts keys (Nodup-cons.0 n).1,
)

DistinctNames-Perm : (ps qs : List Prop) → Perm ps qs → DistinctNames ps → DistinctNames qs
DistinctNames-Perm ps qs h d =
    Nodup-DistinctTexts _ (Permuted.nodup (Permuted.map name_of h) (DistinctTexts-Nodup _ d))

module _ (text : Text) where
  prop_of_section-name : (s : Section) (p : Prop) → prop_of_section text s ≡ ok p → p.name ≡ s.name
  unfolding prop_of_section
  prop_of_section-name s p h =
      let (_, _, h₁) = >>=-eq-ok (int_or_zero text s "MAX_TIMESTAMP_LOOKAHEAD") _ h in
      let (_, _, h₂) = >>=-eq-ok (bool_or_false text s "NO_BINARY_CHECK") _ h₁ in
      let (_, _, h₃) = >>=-eq-ok (bool_or_false text s "SHOULD_LINEMERGE") _ h₂ in
      ap name_of (sym (ok_inj h₃))

  read_each-names :
      (sections : List Section) (ps : List Prop)
      → read_each (prop_of_section text) sections ≡ ok ps
      → map name_of ps ≡ map title_of sections
  unfolding read_each
  read_each-names [] ps h = rw (← ok_inj h) refl
  read_each-names (s ∷ sections) ps h = elim (Result-cases (prop_of_section text s)) [
    | inl (e, failed) ↦ cc (rw (read_each, failed) at h)
    | inr (p, read) ↦ elim (Result-cases (read_each (prop_of_section text) sections)) [
      | inl (e, failed) ↦ cc (rw (read_each, read, failed) at h)
      | inr (later, rest) ↦
          let all : p ∷ later ≡ ps = ok_inj (rw (read_each, read, rest) at h) in
          rw (← all, prop_of_section-name s p read, read_each-names sections later rest) refl
    ]
  ]

  -- The props that ReadProps gives have distinct names, if sort.Slice permutes and the sections behind
  -- the default one have distinct names.
  pub read_props-DistinctNames :
      (load : Load) (payload : String) (sections : List Section) (props : List Prop)
      → Sorts text.sort_slice
      → load payload ≡ ok sections
      → (d : HasDefaultFirst sections) → DistinctTexts (map title_of d.rest)
      → read_props text load payload ≡ some (ok props)
      → DistinctNames props
  unfolding read_props order_props
  read_props-DistinctNames load payload sections props H loaded d distinct h =
      elim (Result-cases (read_each (prop_of_section text) d.rest)) [
        | inl (e, failed) ↦ cc (
            rw
              (
                read_props,
                loaded,
                read_all-read_each (prop_of_section text) no_prop sections d,
                failed,
              )
              at h)
        | inr (ps, read) ↦
            let sorted : order_props text ps ≡ props = cc (
              rw
                (
                  read_props,
                  loaded,
                  read_all-read_each (prop_of_section text) no_prop sections d,
                  read,
                )
                at h) in
            rw (← sorted) (
              DistinctNames-Perm ps (order_props text ps)
                (Permuted.symm (H.permutes (props_less text) ps))
                (rw (read_each-names d.rest ps read) distinct))
      ]
