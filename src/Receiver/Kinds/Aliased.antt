-- ===== src/Receiver/Kinds/Aliased.antt =====
-- What leaves a receiver of any of the five packages under the feature gate, where the first prop has
-- field aliases.
use mathlib.Core.Path.{fun_ext}
use tarunner.Base.{◌≡◌, refl, ap, ◌∙◌, String, true, Option, List, [], ◌∷◌, ◌==◌, string_eq}
use tarunner.Base.Dict.{Dict}
use tarunner.Conf.Data.{Prop, FieldAlias}
use tarunner.Operator.Prop.{alias_operator}
use tarunner.Operator.Prop.Chained.{transform_operators, alias_operators}
use tarunner.Operator.Routing.{Routing}
use tarunner.Operator.Routing.Route.{DistinctIds}
use tarunner.Operator.Stanza.{Pipeline, Copying, copied}
use tarunner.Receiver.{Config, create_set_source_operator}
use tarunner.Receiver.Becomes.{sent, Becomes, attributes_of, attributes_of-sent, after_move}
use tarunner.Receiver.Copies.Operators.{cooked-aliases}
use tarunner.Receiver.Cooked.{applied, cooks}
use tarunner.Receiver.Kinds.{Kind, monitor, script, win_event_log, tcp, udp, base_config}
use tarunner.Receiver.Kinds.Cooked.{started, base_config-Leaves_iff}
use tarunner.Receiver.Metadata.{renamed, with_path, moved-path}

-- The attributes behind the aliases, one after the other.
unfoldable pub aliased : List FieldAlias → (String → Option String) → String → Option String
aliased [] f = f
aliased (fa ∷ aliases) f = aliased aliases (copied fa.from fa.to f)

-- With the file's path as the source, in the packages that have the operator `start`.
unfoldable pub with_source : Kind → (String → Option String) → String → Option String
with_source tcp f = f
with_source udp f = f
with_source _ f = with_path f

module _ (S : Pipeline) where
  attributes_of-path :
      (a : Dict String)
      → attributes_of S (S.apply create_set_source_operator.action a)
        ≡ with_path (attributes_of S a)
  unfolding create_set_source_operator
  attributes_of-path a =
      after_move S "log.file.path" "source" a ∙ fun_ext (moved-path (attributes_of S a))

  attributes_of-started :
      (kind : Kind) (a : Dict String)
      → attributes_of S (started S kind a) ≡ with_source kind (attributes_of S a)
  unfolding started with_source
  attributes_of-started tcp a = refl
  attributes_of-started udp a = refl
  attributes_of-started monitor a = attributes_of-path a
  attributes_of-started script a = attributes_of-path a
  attributes_of-started win_event_log a = attributes_of-path a

  module _ (quote : String → String) (copying : Copying S quote) where
    attributes_of-applied :
        (p : Prop) (aliases : List FieldAlias) (a : Dict String)
        → attributes_of S (applied S (alias_operators quote p [] aliases) a)
          ≡ aliased aliases (attributes_of S a)
    unfolding aliased alias_operator
    attributes_of-applied p [] a = refl
    attributes_of-applied p (fa ∷ aliases) a =
        attributes_of-applied p aliases (S.apply (alias_operator quote fa).action a)
        ∙ ap (aliased aliases) (fun_ext (λ k. copying.lookup-apply-copy fa.from fa.to k a))

    -- Under the feature gate, in every package, if the first prop has no source type, none of its
    -- transforms is there, and the operators have distinct identifiers: each entry leaves the pipeline
    -- with some attributes, and all that leave have the following. The field aliases of the first
    -- prop are applied, in their order, each with the attributes that those before it have made; in
    -- front of them the source is the path of the file, if there is one, where a package has the
    -- operator `start`, and behind them the source, the source type and the index are renamed.
    pub base_config-aliases :
        (kind : Kind) (cfg : Config) (p : Prop) (props : List Prop)
        → cfg.props ≡ p ∷ props
        → transform_operators quote p cfg.transforms p.transforms ≡ []
        → (p.source_type == "") ≡ true
        → (R : Routing (base_config true quote kind cfg))
        → DistinctIds (base_config true quote kind cfg)
        → (a : Dict String)
        → Becomes S
            (base_config true quote kind cfg)
            R
            (λ f. renamed (aliased p.field_aliases (with_source kind f)))
            a
    base_config-aliases kind cfg p props e no_transforms no_source_type R d a =
        let through = base_config-Leaves_iff S true quote kind cfg p props e R d a in
        let left = cooks S true quote cfg.transforms p (started S kind a) in
        let work = cooked-aliases quote cfg.transforms p (no_transforms, no_source_type) in
        let attributes : attributes_of S left
            ≡ aliased p.field_aliases (with_source kind (attributes_of S a)) =
          ap (λ ops. attributes_of S (applied S ops (started S kind a))) work
          ∙ attributes_of-applied p p.field_aliases (started S kind a)
          ∙ ap (aliased p.field_aliases) (attributes_of-started kind a) in
        (
          (sent S left, (through (sent S left)).1 refl),
          λ b l k.
              rw ((through b).0 l) (attributes_of-sent S left k ∙ ap (λ f. renamed f k) attributes),
        )
