-- ===== src/Receiver/Becomes.antt =====
-- The whole way of an entry from the input of a receiver to its exporter, while the feature gate is
-- off: which attributes leave the pipeline.
use mathlib.Core.Path.{fun_ext}
use tarunner.Base.{◌≡◌, refl, ap, ◌∙◌, ◌↔◌, String, Bool, false, Option, List, [], ◌∷◌, ◌++◌}
use tarunner.Base.Dict.{Dict, lookup}
use tarunner.Conf.Data.{Prop, Transform}
use tarunner.Operator.{OperatorConfig, attribute, move}
use tarunner.Operator.Prop.{create_operator_configs, attach, set_output}
use tarunner.Operator.Routing.{Routing}
use tarunner.Operator.Routing.Route.{DistinctIds}
use tarunner.Operator.Stanza.{Pipeline, Leaves, Leaves-last_iff, find_at, moved}
use tarunner.Receiver.{
  Config, create_set_source_operator, base_operators, end_noop, rename_metadata,
}
use tarunner.Receiver.Metadata.{renamed, with_path, moved-path, moved-metadata}
use tarunner.Receiver.Reach
use tarunner.Receiver.Passage.{
  iff_trans, entry_of, behind, explicit_iff, default_iff, noop_iff, props_iff, split,
}

behind_cons :
    (quote : String → String) (ts : List Transform) (props : List Prop)
    → (o : OperatorConfig) × (rest : List OperatorConfig) × (behind quote ts props ≡ o ∷ rest)
unfolding create_operator_configs attach set_output
behind_cons quote ts [] = (end_noop rename_metadata, rename_metadata, refl)
behind_cons quote ts (p ∷ props) = (_, _, refl)

abbrev pub path_move : List OperatorConfig
path_move = create_set_source_operator ∷ []

module _ (S : Pipeline) where
  -- What the operators behind `end` make of the attributes.
  abbrev pub sent : Dict String → Dict String
  sent a =
      S.apply Reach.end_index.action
        (S.apply Reach.end_sourcetype.action (S.apply Reach.end_source.action a))

  abbrev pub attributes_of : Dict String → String → Option String
  attributes_of a k = lookup k a

  pub after_move :
      (from to : String) (a : Dict String)
      → attributes_of (S.apply (move (attribute from) (attribute to) "send_quiet") a)
        ≡ moved from to (attributes_of a)
  after_move from to a = fun_ext (λ k. S.lookup-apply-move from to k a)

  pub attributes_of-sent :
      (a : Dict String) (k : String) → lookup k (sent a) ≡ renamed (attributes_of a) k
  attributes_of-sent a k =
      let a₁ = S.apply Reach.end_source.action a in
      let a₂ = S.apply Reach.end_sourcetype.action a₁ in
      ap (λ f. f k)
        (after_move "index" "com.splunk.index" a₂
          ∙ ap (moved "index" "com.splunk.index") (
              after_move "sourcetype" "com.splunk.sourcetype" a₁
              ∙ ap (moved "sourcetype" "com.splunk.sourcetype")
                  (after_move "source" "com.splunk.source" a)))
      ∙ moved-metadata (attributes_of a) k

  module _ (cook : Bool) (quote : String → String) (first : List OperatorConfig) (cfg : Config)
      (R : Routing (base_operators cook quote first rename_metadata cfg))
      (d : DistinctIds (base_operators cook quote first rename_metadata cfg)) where
    -- From the operator `end` on.
    pub end_iff : (a b : Dict String) → Leaves S R "end" a b ↔ (b ≡ sent a)
    unfolding end_noop rename_metadata
    end_iff a b =
        iff_trans
          (noop_iff S R d _ _ (end_noop rename_metadata) "end-source" "" a b
            (Reach.place_end cook quote first cfg) refl refl)
          (iff_trans
            (explicit_iff S R d _ _ Reach.end_source "end-sourcetype" a b
              (Reach.place_source cook quote first cfg) refl)
            (iff_trans
              (explicit_iff S R d _ _ Reach.end_sourcetype "end-index" _ b
                (Reach.place_sourcetype cook quote first cfg) refl)
              (Leaves-last_iff S R "end-index" Reach.end_index _ b
                (find_at _ _ Reach.end_index (Reach.place_index cook quote first cfg) d)
                (Reach.targets_index cook quote first cfg R))))

  module _ (quote : String → String) (first : List OperatorConfig) (cfg : Config)
      (R : Routing (base_operators false quote first rename_metadata cfg))
      (d : DistinctIds (base_operators false quote first rename_metadata cfg)) where
    behind_iff :
        (a b : Dict String)
        → Leaves S R (entry_of (behind quote cfg.transforms cfg.props)) a b ↔ (b ≡ sent a)
    behind_iff a b =
        iff_trans (props_iff S R d quote cfg.transforms first cfg.props a b (split quote first cfg))
          (end_iff false quote first cfg R d a b)

  -- What is proved of a receiver's operators: of each entry something leaves the pipeline, and what
  -- leaves has the attributes `f`.
  abbrev pub Becomes :
      (ops : List OperatorConfig)
      → Routing ops
      → ((String → Option String) → String → Option String)
      → Dict String
      → Type 0
  Becomes ops R f a =
      ((b : Dict String) × Leaves S R (entry_of ops) a b)
      × ((b : Dict String)
          → Leaves S R (entry_of ops) a b
          → (k : String) → lookup k b ≡ f (attributes_of a) k)

  module _ (quote : String → String) (cfg : Config) where
    pub direct-Becomes :
        (R : Routing (base_operators false quote [] rename_metadata cfg))
        → DistinctIds (base_operators false quote [] rename_metadata cfg)
        → (a : Dict String)
        → Becomes (base_operators false quote [] rename_metadata cfg) R renamed a
    direct-Becomes R d a =
        let entry = ap entry_of (split quote [] cfg) in
        (
          (sent a, rw entry ((behind_iff quote [] cfg R d a (sent a)).1 refl)),
          λ b l k.
              rw ((behind_iff quote [] cfg R d a b).0 (rw entry at l)) (attributes_of-sent a k),
        )

    start_iff :
        (R : Routing (base_operators false quote path_move rename_metadata cfg))
        → DistinctIds (base_operators false quote path_move rename_metadata cfg)
        → (a b : Dict String)
        → Leaves S R "start" a b
          ↔ Leaves S R
              (entry_of (behind quote cfg.transforms cfg.props))
              (S.apply create_set_source_operator.action a)
              b
    unfolding create_set_source_operator entry_of
    start_iff R d a b =
        let (o, rest, e) = behind_cons quote cfg.transforms cfg.props in
        let whole = split quote path_move cfg in
        rw e (
          default_iff S R d [] rest create_set_source_operator o a b
            (whole ∙ ap (λ l. path_move ++ l) e) refl)

    pub filed-Becomes :
        (R : Routing (base_operators false quote path_move rename_metadata cfg))
        → DistinctIds (base_operators false quote path_move rename_metadata cfg)
        → (a : Dict String)
        → Becomes
            (base_operators false quote path_move rename_metadata cfg)
            R
            (λ f. renamed (with_path f))
            a
    unfolding entry_of create_set_source_operator
    filed-Becomes R d a =
        let entry = ap entry_of (split quote path_move cfg) in
        let a' = S.apply create_set_source_operator.action a in
        let pathed : attributes_of a' ≡ with_path (attributes_of a) =
          after_move "log.file.path" "source" a ∙ fun_ext (moved-path (attributes_of a)) in
        let through : (b : Dict String) → Leaves S R "start" a b ↔ (b ≡ sent a') =
          λ b. iff_trans (start_iff R d a b) (behind_iff quote path_move cfg R d a' b) in
        (
          (sent a', rw entry ((through (sent a')).1 refl)),
          λ b l k.
              rw ((through b).0 (rw entry at l))
                (attributes_of-sent a' k ∙ ap (λ f. renamed f k) pathed),
        )
