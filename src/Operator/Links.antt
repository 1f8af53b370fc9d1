-- ===== src/Operator/Links.antt =====
-- Lists of operators each of which names the next one as its output.
use tarunner.Base.{◌≡◌, refl, ap, String, List, [], ◌∷◌, ◌++◌, length, map}
use tarunner.Operator.{OperatorConfig, Action}

abbrev pub linked : OperatorConfig → String → OperatorConfig
linked o id = record o { output_ids = id ∷ [] }

-- The operators run from the first to the last, and then to `exit`.
abbrev pub chain : List OperatorConfig → String → List OperatorConfig
chain [] exit = []
chain (o ∷ []) exit = linked o exit ∷ []
chain (o ∷ o' ∷ ops) exit = linked o o'.operator_id ∷ chain (o' ∷ ops) exit

pub chain-append_one :
    (ops : List OperatorConfig) (o : OperatorConfig) (exit : String)
    → chain (ops ++ o ∷ []) exit ≡ chain ops o.operator_id ++ linked o exit ∷ []
chain-append_one [] o exit = refl
chain-append_one (x ∷ []) o exit = refl
chain-append_one (x ∷ y ∷ ops) o exit =
    ap (◌∷◌ (linked x y.operator_id)) (chain-append_one (y ∷ ops) o exit)

pub length-chain :
    (ops : List OperatorConfig) (exit : String) → length (chain ops exit) ≡ length ops
length-chain [] exit = refl
length-chain (x ∷ []) exit = refl
length-chain (x ∷ y ∷ ops) exit = rw (length-chain (y ∷ ops) exit) refl

pub chain_cons :
    (o : OperatorConfig) (ops : List OperatorConfig) (exit : String)
    → (id : String) × (rest : List OperatorConfig) × (chain (o ∷ ops) exit ≡ linked o id ∷ rest)
chain_cons o [] exit = (exit, [], refl)
chain_cons o (o' ∷ ops) exit = (o'.operator_id, chain (o' ∷ ops) exit, refl)

-- `ops` run from the first to the last, each one's only output its successor, and the last one's
-- only output `exit`.
abbrev pub IsLinked : List OperatorConfig → String → Type 0
IsLinked [] exit = Unit
IsLinked (o ∷ []) exit = o.output_ids ≡ exit ∷ []
IsLinked (o ∷ o' ∷ ops) exit = (o.output_ids ≡ o'.operator_id ∷ []) × IsLinked (o' ∷ ops) exit

abbrev pub id_of : OperatorConfig → String
id_of o = o.operator_id

pub chain-IsLinked : (ops : List OperatorConfig) (exit : String) → IsLinked (chain ops exit) exit
chain-IsLinked [] exit = tt
chain-IsLinked (o ∷ []) exit = refl
chain-IsLinked (o ∷ o' ∷ []) exit = (refl, refl)
chain-IsLinked (o ∷ o' ∷ o'' ∷ ops) exit = (refl, chain-IsLinked (o' ∷ o'' ∷ ops) exit)

abbrev pub action_of : OperatorConfig → Action
action_of o = o.action

-- What the outputs do not change.
pub map-chain {ℓ} :
    {B : Type ℓ} (f : OperatorConfig → B)
    → ((o : OperatorConfig) (id : String) → f (linked o id) ≡ f o)
    → (ops : List OperatorConfig) (exit : String) → map f (chain ops exit) ≡ map f ops
map-chain f keeps [] exit = refl
map-chain f keeps (o ∷ []) exit = ap (λ b. b ∷ []) (keeps o exit)
map-chain f keeps (o ∷ o' ∷ ops) exit =
    rw (keeps o o'.operator_id, map-chain f keeps (o' ∷ ops) exit) refl
