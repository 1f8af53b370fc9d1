-- ===== src/Transform/Fifo/Entries.antt =====
-- The entries of the map of Fifo: what a push and a drop leave of them.
use tarunner.Base.{
  ◌≡◌, refl, sym, ap, ◌∙◌, String, none, some, [], ◌∷◌, ◌++◌, length, arith, ◌==◌, nat_eq,
  string_eq, eq_iff, if◌then◌else◌, Bool-cases, inl, inr,
}
use tarunner.Base.Dict.{Dict, lookup}
use tarunner.Base.Dict.Size.{NodupKeys}
use tarunner.Transform.Fifo.{FifoMap, drop_oldest, kept}

module _ {ℓ} {V : Type ℓ} where
  pub lookup-append_one :
      (d : Dict V) (key : String) (value : V) (k : String)
      → lookup key d ≡ none
      → lookup k (d ++ (key, value) ∷ []) ≡ (if key == k then some value else lookup k d)
  unfolding lookup
  lookup-append_one [] key value k h = refl
  lookup-append_one ((j, w) ∷ d) key value k h =
      ground (arith, lookup-append_one d key value k, eq_iff j key, eq_iff j k, eq_iff key k)

  pub NodupKeys-append_one :
      (d : Dict V) (key : String) (value : V)
      → lookup key d ≡ none
      → NodupKeys d
      → NodupKeys (d ++ (key, value) ∷ [])
  unfolding lookup
  NodupKeys-append_one [] key value h n = (refl, tt)
  NodupKeys-append_one ((j, w) ∷ d) key value h (fresh, n) = (
    ground (arith, lookup-append_one d key value j, eq_iff j key, eq_iff key j),
    NodupKeys-append_one d key value (ground (arith, eq_iff j key)) n,
  )

  -- Without its oldest entry, a map reads as before at all other keys.
  pub lookup-drop_oldest :
      (key : String) (value : V) (d : Dict V) (k : String)
      → NodupKeys ((key, value) ∷ d)
      → lookup k d ≡ (if key == k then none else lookup k ((key, value) ∷ d))
  unfolding lookup
  lookup-drop_oldest key value d k (fresh, n) = elim (Bool-cases (key == k)) [
    | inl same ↦
        let e : key ≡ k = ground (arith, eq_iff key k) in
        rw same (ap (λ j. lookup j d) (sym e) ∙ fresh)
    | inr other ↦ rw other refl
  ]

  lookup-dropped :
      (d : Dict V) (key : String)
      → NodupKeys d
      → lookup key d ≡ none
      → lookup key (drop_oldest d) ≡ none
  lookup-dropped [] key n h = h
  lookup-dropped ((j, w) ∷ d) key n h = ground (arith, lookup-drop_oldest j w d key n)

  pub lookup-kept :
      (q : FifoMap V) (key : String)
      → NodupKeys q.entries
      → lookup key q.entries ≡ none
      → lookup key (kept q) ≡ none
  lookup-kept q key n h = elim (Bool-cases (length q.entries == q.size)) [
    | inl full ↦ rw full (lookup-dropped q.entries key n h)
    | inr space ↦ rw space h
  ]
