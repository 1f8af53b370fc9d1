-- ===== src/Transform/Fifo.antt =====
-- What the cache of internal/operator/transform/cache.go promises a caller that adds only the keys
-- that it does not find: a map of bounded size that gives up its oldest entry for a new one, as
-- often as its budget allows, and then keeps what it has.
pub mod Entries
use tarunner.Base.{
  ℕ, ◌-◌, String, Option, none, some, List, [], ◌∷◌, ◌++◌, length, ◌==◌, nat_eq, if◌then◌else◌,
}
use tarunner.Base.Dict.{Dict, lookup}

pub record FifoMap {ℓ} (V : Type ℓ) : Type ℓ where
  -- Oldest first, no key twice.
  pub entries : Dict V
  pub size : ℕ
  -- The evictions that are left.
  pub budget : ℕ

module _ {ℓ} {V : Type ℓ} where
  abbrev pub drop_oldest : Dict V → Dict V
  drop_oldest [] = []
  drop_oldest (_ ∷ rest) = rest

  -- What a push leaves of the entries and of the budget.
  abbrev pub kept : FifoMap V → Dict V
  kept q = if length q.entries == q.size then drop_oldest q.entries else q.entries

  abbrev pub left : FifoMap V → ℕ
  left q = if length q.entries == q.size then q.budget - 1 else q.budget

  abbrev pub pushed : FifoMap V → String → V → FifoMap V
  pushed q key value = record q { entries = kept q ++ (key, value) ∷ []; budget = left q }

  unfoldable pub push : FifoMap V → String → V → FifoMap V
  push q key value = if q.budget == 0 then q else pushed q key value

  -- Read a key, and put a value to it if it is not there; the reply is what the read gives.
  unfoldable pub remember : FifoMap V → String → V → FifoMap V × Option V
  unfolding push
  remember q key value = elim (lookup key q.entries) [
    | some found ↦ (q, some found)
    | none ↦ (push q key value, none)
  ]

  unfoldable pub run : FifoMap V → List (String × V) → List (Option V)
  run q [] = []
  run q ((key, value) ∷ calls) = let (q', reply) = remember q key value in reply ∷ run q' calls

unfoldable pub empty {ℓ} : {V : Type ℓ} → ℕ → ℕ → FifoMap V
empty size budget = record { entries = []; size = size; budget = budget }
