-- ===== src/Receiver/Copies.antt =====
-- The identifiers of the operators of a receiver whose props make operators for their aliases only.
pub mod Operators
use mathlib.Core.List.{append_assoc, append-nil, map-append}
use tarunner.Base.{
  ◌≡◌, refl, sym, ap, ◌∙◌, String, ◌<>◌, true, false, List, All, [], ◌∷◌, ◌++◌, map, ◌==◌,
  string_eq, eq_iff, arith,
}
use tarunner.Base.ConcatMap.{concat_map}
use tarunner.Base.Dict.Size.{contains}
use tarunner.Conf.Data.{Prop, Transform, FieldAlias}
use tarunner.Conf.Props.Names.{name_of, DistinctTexts, DistinctNames}
use tarunner.Operator.Names.{
  flip, ends_differ, longer, same_suffix, start_ne_end, end_ne_start, start_ne_copy, copy_ne_end,
}
use tarunner.Operator.{OperatorConfig}
use tarunner.Operator.Links.{id_of, map-chain}
use tarunner.Operator.Prop.{alias_operator, start_operator, end_operator}
use tarunner.Operator.Prop.Chained.{
  transform_operators, alias_operators, cooked, prop_operators, create_operator_configs-chain,
}
use tarunner.Operator.Routing.Route.{DistinctIds, ids}
use tarunner.Receiver.{
  Config, base_operators, create_set_source_operator, end_noop, rename_metadata,
}
use tarunner.Receiver.FirstProp.{append_props-concat_map, created}
use tarunner.Receiver.Aliases.{alias_name}
use tarunner.Receiver.Identifiers.{tail_ids, start-tail, end-tail}

abbrev pub copy_id : String → String
copy_id n = n <> "-copy"

abbrev pub names : Prop → List String
names p = map alias_name p.field_aliases

-- The identifiers of the operators of some props, which have aliases only, and of those behind them.
abbrev pub ids_of : List Prop → List String
ids_of [] = tail_ids
ids_of (p ∷ props) =
    (p.name <> "-start") ∷ (map copy_id (names p) ++ ((p.name <> "-end") ∷ ids_of props))

abbrev pub alias_names : List Prop → List String
alias_names = concat_map names

copy-tail : (n : String) → contains (copy_id n) tail_ids ≡ false
unfolding contains
copy-tail n = ground (
  arith,
  flip (n <> "-copy") "end" (longer n "-copy" "end" (omega arith)),
  flip (n <> "-copy") "end-source" (ends_differ n "-" "end-so" "copy" "urce" refl refl),
  flip (n <> "-copy") "end-sourcetype" (ends_differ n "-" "end-source" "copy" "type" refl refl),
  flip (n <> "-copy") "end-host" (ends_differ n "-" "end-" "copy" "host" refl refl),
  flip (n <> "-copy") "end-index" (ends_differ n "-" "end-i" "copy" "ndex" refl refl),
)

-- An identifier that is none of the aliases'.
not-copy :
    (id : String) (ns rest : List String)
    → ((n : String) → (copy_id n == id) ≡ false)
    → contains id rest ≡ false
    → contains id (map copy_id ns ++ rest) ≡ false
unfolding contains
not-copy id [] rest away h = h
not-copy id (n ∷ ns) rest away h = ground (arith, away n, not-copy id ns rest away h)

copy-absent :
    (n : String) (ns rest : List String)
    → contains n ns ≡ false
    → contains (copy_id n) rest ≡ false
    → contains (copy_id n) (map copy_id ns ++ rest) ≡ false
unfolding contains
copy-absent n [] rest fresh h = h
copy-absent n (m ∷ ns) rest fresh h =
    let other : (m == n) ≡ false = ground (arith, fresh) in
    ground (arith, same_suffix m n "-copy" other, copy-absent n ns rest (ground (arith, fresh)) h)

contains-append_false :
    (n : String) (xs ys : List String)
    → contains n (xs ++ ys) ≡ false
    → (contains n xs ≡ false) × (contains n ys ≡ false)
unfolding contains
contains-append_false n [] ys h = (refl, h)
contains-append_false n (x ∷ xs) ys h =
    let (in_xs, in_ys) = contains-append_false n xs ys (ground (arith, h)) in
    (ground (arith, h, in_xs), in_ys)

copy-ids_of :
    (n : String) (props : List Prop)
    → contains n (alias_names props) ≡ false
    → contains (copy_id n) (ids_of props) ≡ false
unfolding contains
copy-ids_of n [] fresh = copy-tail n
copy-ids_of n (p ∷ props) fresh =
    let (here, later) = contains-append_false n (names p) (alias_names props) fresh in
    let rest = copy-ids_of n props later in
    let behind : contains (copy_id n) ((p.name <> "-end") ∷ ids_of props) ≡ false =
      ground (arith, rest, flip (copy_id n) (p.name <> "-end") (copy_ne_end n p.name)) in
    ground (
      arith,
      start_ne_copy p.name n,
      copy-absent n (names p) ((p.name <> "-end") ∷ ids_of props) here behind,
    )

start-ids_of :
    (m : String) (props : List Prop)
    → contains m (map name_of props) ≡ false
    → contains (m <> "-start") (ids_of props) ≡ false
unfolding contains
start-ids_of m [] fresh = start-tail m
start-ids_of m (p ∷ props) fresh =
    let other : (p.name == m) ≡ false = ground (arith, fresh) in
    let rest = start-ids_of m props (ground (arith, fresh)) in
    let behind : contains (m <> "-start") ((p.name <> "-end") ∷ ids_of props) ≡ false =
      ground (arith, rest, end_ne_start p.name m) in
    ground (
      arith,
      same_suffix p.name m "-start" other,
      not-copy (m <> "-start") (names p) ((p.name <> "-end") ∷ ids_of props)
          (λ n. flip (m <> "-start") (copy_id n) (start_ne_copy m n)) behind,
    )

end-ids_of :
    (m : String) (props : List Prop)
    → contains m (map name_of props) ≡ false
    → contains (m <> "-end") (ids_of props) ≡ false
unfolding contains
end-ids_of m [] fresh = end-tail m
end-ids_of m (p ∷ props) fresh =
    let other : (p.name == m) ≡ false = ground (arith, fresh) in
    let rest = end-ids_of m props (ground (arith, fresh)) in
    let behind : contains (m <> "-end") ((p.name <> "-end") ∷ ids_of props) ≡ false =
      ground (arith, rest, same_suffix p.name m "-end" other) in
    ground (
      arith,
      start_ne_end p.name m,
      not-copy (m <> "-end") (names p) ((p.name <> "-end") ∷ ids_of props) (λ n. copy_ne_end n m)
          behind,
    )

copies-Distinct :
    (ns : List String) (m : String) (props : List Prop)
    → DistinctTexts (ns ++ alias_names props)
    → DistinctTexts ((m <> "-end") ∷ ids_of props)
    → DistinctTexts (map copy_id ns ++ ((m <> "-end") ∷ ids_of props))
unfolding DistinctTexts contains
copies-Distinct [] m props d r = r
copies-Distinct (n ∷ ns) m props (fresh, d) r =
    let (here, later) = contains-append_false n ns (alias_names props) fresh in
    let behind : contains (copy_id n) ((m <> "-end") ∷ ids_of props) ≡ false =
      ground (arith, copy-ids_of n props later, flip (copy_id n) (m <> "-end") (copy_ne_end n m)) in
    (copy-absent n ns _ here behind, copies-Distinct ns m props d r)

Distinct-drop : (xs ys : List String) → DistinctTexts (xs ++ ys) → DistinctTexts ys
unfolding DistinctTexts
Distinct-drop [] ys d = d
Distinct-drop (x ∷ xs) ys (_, d) = Distinct-drop xs ys d

pub ids_of-Distinct :
    (props : List Prop)
    → DistinctNames props
    → DistinctTexts (alias_names props)
    → DistinctTexts (ids_of props)
unfolding DistinctTexts contains
ids_of-Distinct [] d a = (refl, (refl, (refl, (refl, (refl, tt)))))
ids_of-Distinct (p ∷ props) (fresh, d) a =
    let rest = ids_of-Distinct props d (Distinct-drop (names p) (alias_names props) a) in
    let behind : contains (p.name <> "-start") ((p.name <> "-end") ∷ ids_of props) ≡ false =
      ground (arith, start-ids_of p.name props fresh, end_ne_start p.name p.name) in
    (
      not-copy (p.name <> "-start") (names p) _
          (λ n. flip (p.name <> "-start") (copy_id n) (start_ne_copy p.name n)) behind,
      copies-Distinct (names p) p.name props a (end-ids_of p.name props fresh, rest),
    )

pub entry-ids_of : (props : List Prop) → contains "start" (ids_of props) ≡ false
unfolding contains
entry-ids_of [] = refl
entry-ids_of (p ∷ props) =
    let behind : contains "start" ((p.name <> "-end") ∷ ids_of props) ≡ false =
      ground (arith, entry-ids_of props, ends_differ p.name "" "s" "-end" "tart" refl refl) in
    ground (
      arith,
      longer p.name "-start" "start" (omega arith),
      not-copy "start" (names p) ((p.name <> "-end") ∷ ids_of props)
          (λ n. ends_differ n "-" "s" "copy" "tart" refl refl) behind,
    )
