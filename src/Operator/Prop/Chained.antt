-- ===== src/Operator/Prop/Chained.antt =====
-- The operators of `CreateOperatorConfigs` of internal/operator/prop/prop.go, without its variable
-- `previous`: a list of operators, each of which is then given its successor as its output.
use tarunner.Base.{
  ◌≡◌, refl, String, Bool, true, false, Option, none, some, List, [], ◌∷◌, ◌++◌, length, get_elem?,
  get_elem?-append_length, set-append_length, ◌∙◌, sym, ap, if◌then◌else◌, ◌==◌, string_eq, not,
}
use mathlib.Core.List.{foldl, append-nil, append_assoc}
use tarunner.Base.ConcatMap.{concat_map}
use tarunner.Conf.Data.{Prop, Transform, PropsTransforms, FieldAlias}
use tarunner.Operator.{OperatorConfig}
use tarunner.Operator.Links.{linked, chain, chain-append_one, length-chain}
use tarunner.Operator.Prop.{
  Chain, set_output, attach, start_operator, find_transform, transform_operator, attach_stanza,
  attach_transforms, alias_operator, source_type_operator, attach_source_type, cook_operators,
  end_operator, create_operator_configs,
}

-- What the loops keep, with the operators `ops` attached: `previous` is the last of them, those
-- before it are a chain that leads to it.
record IsOpen (c : Chain) (ops : List OperatorConfig) : Type 0 where
  init : List OperatorConfig
  last : OperatorConfig
  split : ops ≡ init ++ last ∷ []
  chained : c.operators ≡ chain init last.operator_id ++ last ∷ []
  at_last : c.previous ≡ length init

operators-set_output :
    (c : Chain) (ops : List OperatorConfig) (id : String)
    → IsOpen c ops
    → (set_output c id).operators ≡ chain ops id
unfolding set_output
operators-set_output c ops id h =
    let front = chain h.init h.last.operator_id in
    let at_last : c.previous ≡ length front =
      h.at_last ∙ sym (length-chain h.init h.last.operator_id) in
    let there : get_elem? c.operators c.previous ≡ some h.last =
      rw (h.chained, at_last) (get_elem?-append_length front h.last []) in
    rw (there, set_output)
      (rw (h.chained, at_last, h.split)
        (set-append_length front h.last [] (linked h.last id)
          ∙ sym (chain-append_one h.init h.last id)))

attach-IsOpen :
    (c : Chain) (ops : List OperatorConfig) (o : OperatorConfig)
    → IsOpen c ops
    → IsOpen (attach c o) (ops ++ o ∷ [])
unfolding attach
attach-IsOpen c ops o h =
    let set_ = operators-set_output c ops o.operator_id h in
    record {
      init = ops;
      last = o;
      split = refl;
      chained = ap (λ l. l ++ o ∷ []) set_;
      at_last = ap length set_ ∙ length-chain ops o.operator_id;
    }

operators-attach :
    (c : Chain) (ops : List OperatorConfig) (o : OperatorConfig) (exit : String)
    → IsOpen c ops
    → o.output_ids ≡ exit ∷ []
    → (attach c o).operators ≡ chain (ops ++ o ∷ []) exit
unfolding attach
operators-attach c ops o exit h e =
    let same : o ≡ linked o exit = ap (λ l. record o { output_ids = l }) e in
    ap (λ l. l ++ o ∷ []) (operators-set_output c ops o.operator_id h)
    ∙ ap (λ last. chain ops o.operator_id ++ last ∷ []) same
    ∙ sym (chain-append_one ops o exit)

-- A loop whose rounds each attach the operators `g a`.
foldl-IsOpen {ℓ} :
    {A : Type ℓ} (f : Chain → A → Chain) (g : A → List OperatorConfig)
    → ((c : Chain) (ops : List OperatorConfig) (a : A) → IsOpen c ops → IsOpen (f c a) (ops ++ g a))
    → (xs : List A) (c : Chain) (ops : List OperatorConfig) → IsOpen c ops
    → IsOpen (foldl f c xs) (ops ++ concat_map g xs)
foldl-IsOpen f g step [] c ops h = rw append-nil h
foldl-IsOpen f g step (x ∷ xs) c ops h =
    rw (← append_assoc ops (g x) (concat_map g xs))
      (foldl-IsOpen f g step xs (f c x) (ops ++ g x) (step c ops x h))

-- The operators that the loops attach, straight from the prop and the transforms.
module _ (quote : String → String) (p : Prop) (transforms : List Transform) where
  abbrev pub found : Option Transform → List OperatorConfig
  found none = []
  found (some t) = transform_operator quote p t ∷ []

  abbrev pub stanza_operators : String → List OperatorConfig
  stanza_operators stanza = found (find_transform stanza transforms)

  attach_stanza-IsOpen :
      (c : Chain) (ops : List OperatorConfig) (stanza : String)
      → IsOpen c ops
      → IsOpen (attach_stanza quote p transforms c stanza) (ops ++ stanza_operators stanza)
  unfolding attach_stanza
  attach_stanza-IsOpen c ops stanza h =
      elim (find_transform stanza transforms)
        as (λ o.
          IsOpen (elim o [ none ↦ c | some t ↦ attach c (transform_operator quote p t) ])
            (ops ++ found o)) [
              | none ↦ rw append-nil h
              | some t ↦ attach-IsOpen c ops (transform_operator quote p t) h
            ]

  attach_transforms-IsOpen :
      (c : Chain) (ops : List OperatorConfig) (t : PropsTransforms)
      → IsOpen c ops
      → IsOpen
          (attach_transforms quote p transforms c t)
          (ops ++ concat_map stanza_operators t.stanza)
  unfolding attach_transforms
  attach_transforms-IsOpen c ops t h =
      foldl-IsOpen (attach_stanza quote p transforms) stanza_operators attach_stanza-IsOpen t.stanza
        c ops h

  abbrev pub transform_operators : List PropsTransforms → List OperatorConfig
  transform_operators = concat_map (λ t. concat_map stanza_operators t.stanza)

  abbrev pub alias_operators : List FieldAlias → List OperatorConfig
  alias_operators = concat_map (λ fa. alias_operator quote fa ∷ [])

  abbrev pub source_type_operators : List OperatorConfig
  source_type_operators = if not (p.source_type == "") then source_type_operator p ∷ [] else []

  attach_source_type-IsOpen :
      (c : Chain) (ops : List OperatorConfig)
      → IsOpen c ops
      → IsOpen (attach_source_type p c) (ops ++ source_type_operators)
  unfolding attach_source_type
  attach_source_type-IsOpen c ops h =
      elim (not (p.source_type == ""))
        as (λ b.
          IsOpen (if b then attach c (source_type_operator p) else c)
            (ops ++ (if b then source_type_operator p ∷ [] else []))) [
              | false ↦ rw append-nil h
              | true ↦ attach-IsOpen c ops (source_type_operator p) h
            ]

  abbrev pub cooked : List OperatorConfig
  cooked =
      (transform_operators p.transforms ++ alias_operators p.field_aliases) ++ source_type_operators

  cook_operators-IsOpen :
      (c : Chain) (ops : List OperatorConfig)
      → IsOpen c ops
      → IsOpen (cook_operators quote p transforms c) (ops ++ cooked)
  unfolding cook_operators
  cook_operators-IsOpen c ops h =
      rw
        (
          ← append_assoc ops (transform_operators p.transforms ++ alias_operators p.field_aliases)
              source_type_operators,
          ← append_assoc ops (transform_operators p.transforms) (alias_operators p.field_aliases),
        )
        (attach_source_type-IsOpen _ _ (
          foldl-IsOpen (λ c' fa. attach c' (alias_operator quote fa))
            (λ fa. alias_operator quote fa ∷ [])
            (λ c' ops' fa h'. attach-IsOpen c' ops' (alias_operator quote fa) h') p.field_aliases _
            _
            (foldl-IsOpen (attach_transforms quote p transforms)
              (λ t. concat_map stanza_operators t.stanza) attach_transforms-IsOpen p.transforms c
              ops h)))

  abbrev start_chain : Chain
  start_chain = record { operators = start_operator quote p ∷ []; previous = 0 }

  start-IsOpen : IsOpen start_chain (start_operator quote p ∷ [])
  start-IsOpen = record {
    init = [];
    last = start_operator quote p;
    split = refl;
    chained = refl;
    at_last = refl;
  }

  -- The operators of a prop, in order: the start, under the feature gate those of the transforms
  -- found by name, of the field aliases and of the source type, and the end.
  abbrev pub prop_operators : Bool → List OperatorConfig
  prop_operators cook =
      ((start_operator quote p ∷ []) ++ (if cook then cooked else [])) ++ (end_operator p ∷ [])

  cooked-IsOpen :
      (cook : Bool)
      → IsOpen
          (if cook then cook_operators quote p transforms start_chain else start_chain)
          ((start_operator quote p ∷ []) ++ (if cook then cooked else []))
  cooked-IsOpen true = cook_operators-IsOpen start_chain _ start-IsOpen
  cooked-IsOpen false = start-IsOpen

  -- CreateOperatorConfigs gives the chain of these operators: it lists them in their order, and
  -- changes in each only the outputs, to the one operator behind it, and in the last to `end`. They
  -- are the start, under the feature gate those of the transforms found by name, of the field
  -- aliases and of the source type, and the end.
  pub create_operator_configs-chain :
      (cook : Bool)
      → create_operator_configs cook quote p transforms ≡ chain (prop_operators cook) "end"
  unfolding create_operator_configs end_operator
  create_operator_configs-chain cook =
      operators-attach _ _ (end_operator p) "end" (cooked-IsOpen cook) refl
