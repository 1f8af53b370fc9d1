-- ===== src/Conf/Props/Order.antt =====
-- The order of `orderProps` of internal/conf/props.go, with the contract of sort.Slice.
use mathlib.Core.List.{Perm}
use tarunner.Base.{
  ℕ, String, starts_with, Bool, true, false, ◌≡◌, ◌<◌, ◌⊎◌, List, [], ◌∷◌, All, ◌==◌, string_eq,
  nat_eq, if◌then◌else◌, arith,
}
use tarunner.Conf.Data.{Prop}
use tarunner.Conf.Types.{prop_type, type_of_name, rank}
use tarunner.Conf.Props.{Text, props_less, order_props}

-- A strict weak order, as a test.
pub record IsStrictWeak {ℓ} {A : Type ℓ} (less : A → A → Bool) : Type ℓ where
  pub asymmetric : (x y : A) → less x y ≡ true → less y x ≡ false
  pub negatively_transitive : (x y z : A) → less x y ≡ false → less y z ≡ false → less x z ≡ false

-- Every element stands in the relation to every later one.
unfoldable pub Ordered {ℓ κ} : {A : Type ℓ} → (A → A → Type κ) → List A → Type κ
Ordered R [] = Unit
Ordered R (x ∷ xs) = All (R x) xs × Ordered R xs

-- What sort.Slice documents: of a strict weak order it makes a permutation in which no element is
-- less than one before it.
pub record Sorts (sort : (Prop → Prop → Bool) → List Prop → List Prop) : Type 0 where
  pub permutes : (less : Prop → Prop → Bool) (ps : List Prop) → Perm (sort less ps) ps
  pub ordered :
      (less : Prop → Prop → Bool) (ps : List Prop)
      → IsStrictWeak less
      → Ordered (λ p q. less q p ≡ false) (sort less ps)

Ordered-mono {ℓ κ κ'} :
    {A : Type ℓ} (R : A → A → Type κ) (S : A → A → Type κ')
    → ((x y : A) → R x y → S x y)
    → (xs : List A) → Ordered R xs
    → Ordered S xs
unfolding Ordered
Ordered-mono R S f [] h = tt
Ordered-mono {A = A} R S f (x ∷ xs) (h, hs) = (each xs h, Ordered-mono R S f xs hs)
  where
    each : (ys : List A) → All (R x) ys → All (S x) ys
    each [] h' = tt
    each (y ∷ ys) (h', hs') = (f x y h', each ys hs')

-- The group of a stanza, by its name: those of a source, those of a host, those of a source type,
-- and the one named default.
abbrev pub group : String → ℕ
group name =
    if starts_with name "source::"
    then 0
    else if starts_with name "host::"
    then 1
    else if name == "default"
    then 3
    else 2

-- The code numbers the groups in this order.
rank_lem : (p : Prop) → rank (prop_type p) ≡ group p.name
unfolding prop_type type_of_name
rank_lem p = ground arith

module _ (text : Text) where
  -- The name of p is of an earlier group than that of q, or of the same, and then q's is not less.
  abbrev pub ComesFirst : Prop → Prop → Type 0
  ComesFirst p q =
      (group p.name < group q.name)
      ⊎ ((group p.name ≡ group q.name) × (text.string_less q.name p.name ≡ false))

  -- The test is a strict weak order when that of the strings is.
  props_less-IsStrictWeak : IsStrictWeak text.string_less → IsStrictWeak (props_less text)
  unfolding props_less
  props_less-IsStrictWeak S = record {
    asymmetric = λ p q h. ground (arith, S.asymmetric p.name q.name);
    negatively_transitive =
        λ p q r h k. ground (arith, S.negatively_transitive p.name q.name r.name);
  }

  not_less : (p q : Prop) → props_less text q p ≡ false → ComesFirst p q
  unfolding props_less
  not_less p q h =
      let ranked : (rank (prop_type p) < rank (prop_type q))
          ⊎ ((rank (prop_type p) ≡ rank (prop_type q)) × (text.string_less q.name p.name ≡ false)) =
        ground arith in
      rw (rank_lem p, rank_lem q) at ranked

  -- `orderProps` keeps the props and puts the names that start with source:: before those that start
  -- with host::, these before all others but default, and default last, and each of these groups in
  -- the order of the names, if sort.Slice sorts and `<` of strings is a strict weak order.
  pub order_props-Ordered :
      Sorts text.sort_slice
      → IsStrictWeak text.string_less
      → (props : List Prop)
      → Perm (order_props text props) props × Ordered ComesFirst (order_props text props)
  unfolding order_props
  order_props-Ordered H S props = (
    H.permutes (props_less text) props,
    Ordered-mono _ ComesFirst not_less _
        (H.ordered (props_less text) props (props_less-IsStrictWeak S)),
  )
