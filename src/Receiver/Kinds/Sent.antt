-- ===== src/Receiver/Kinds/Sent.antt =====
-- From the parameters of an input to what leaves the pipeline of its receiver.
use mathlib.Core.Path.{fun_ext}
use tarunner.Base.{
  ◌≡◌, refl, ap, ◌∙◌, String, false, Option, none, some, ◌==◌, string_eq, if◌then◌else◌,
}
use tarunner.Base.Dict.{Dict, lookup, insert, lookup-insert}
use tarunner.Conf.Data.{Params}
use tarunner.Conf.Params.{get}
use tarunner.Operator.Routing.{Routing}
use tarunner.Operator.Routing.Route.{DistinctIds}
use tarunner.Operator.Stanza.{Pipeline, Leaves, or_else}
use tarunner.Receiver.{Config, input_attributes}
use tarunner.Receiver.Attributes.{lookup-input_attributes, is_metadata, value_of}
use tarunner.Receiver.Kinds.{Kind, monitor, script, win_event_log, tcp, udp, base_config}
use tarunner.Receiver.Kinds.Delivered.{sent_attributes, base_config-Becomes}
use tarunner.Receiver.Metadata.{renamed, with_path, at_text}
use tarunner.Receiver.Passage.{entry_of}

-- The attributes of an entry: those of its input and, if it comes from a file, the file's path.
unfoldable pub entry_attributes : Params → Option String → Dict String
entry_attributes params none = input_attributes params
entry_attributes params (some path) = insert "log.file.path" path (input_attributes params)

abbrev value : Params → Option String → String → Option String
value params path name =
    if "log.file.path" == name
    then path
    else if is_metadata name
    then value_of (get params name)
    else none

lookup-entry_attributes :
    (params : Params) (path : Option String) (name : String)
    → lookup name (entry_attributes params path) ≡ value params path name
unfolding entry_attributes is_metadata
lookup-entry_attributes params none name =
    at_text (λ j. lookup j (entry_attributes params none) ≡ value params none j) "log.file.path"
      name (lookup-input_attributes "log.file.path" params)
      (λ other. rw other (lookup-input_attributes name params))
lookup-entry_attributes params (some path) name =
    rw
      (
        lookup-insert name "log.file.path" path (input_attributes params),
        lookup-input_attributes name params,
      )
      refl

or_else-none : (o : Option String) → or_else o none ≡ o
or_else-none none = refl
or_else-none (some v) = refl

-- The path wins over the parameter where a package has the operator `start`.
unfoldable pub sent_source : Kind → Option String → Option String → Option String
sent_source tcp path source = source
sent_source udp path source = source
sent_source _ path source = or_else path source

source-value :
    (kind : Kind) (params : Params) (path : Option String)
    → sent_attributes kind (value params path) "com.splunk.source"
      ≡ sent_source kind path (value_of (get params "source"))
unfolding sent_attributes sent_source renamed with_path is_metadata
source-value tcp params path = or_else-none _
source-value udp params path = or_else-none _
source-value monitor params path = or_else-none _
source-value script params path = or_else-none _
source-value win_event_log params path = or_else-none _

-- The other metadata, and the host under its own name.
metadata-value :
    (kind : Kind) (params : Params) (path : Option String)
    → (sent_attributes kind (value params path) "com.splunk.sourcetype"
        ≡ value_of (get params "sourcetype"))
      × (sent_attributes kind (value params path) "com.splunk.index"
          ≡ value_of (get params "index"))
      × (sent_attributes kind (value params path) "com.splunk.host" ≡ none)
      × (sent_attributes kind (value params path) "host" ≡ value_of (get params "host"))
unfolding sent_attributes renamed with_path is_metadata
metadata-value tcp params path = (or_else-none _, or_else-none _, refl, refl)
metadata-value udp params path = (or_else-none _, or_else-none _, refl, refl)
metadata-value monitor params path = (or_else-none _, or_else-none _, refl, refl)
metadata-value script params path = (or_else-none _, or_else-none _, refl, refl)
metadata-value win_event_log params path = (or_else-none _, or_else-none _, refl, refl)

-- While the feature gate is off: what leaves the pipeline for an entry that has the attributes of
-- its input, and perhaps the path of a file, has, under com.splunk., the source type and the index
-- that are parameters of the input, and the source: the path if there is one, in the packages with
-- the operator `start`, else the parameter. The parameter host stands under its own name, and not
-- under com.splunk.host.
pub base_config-sent :
    (S : Pipeline) (quote : String → String) (kind : Kind) (cfg : Config)
    (R : Routing (base_config false quote kind cfg))
    → DistinctIds (base_config false quote kind cfg)
    → (path : Option String) (b : Dict String)
    → Leaves S R
        (entry_of (base_config false quote kind cfg))
        (entry_attributes cfg.input.stanza.params path)
        b
    → (lookup "com.splunk.source" b
        ≡ sent_source kind path (value_of (get cfg.input.stanza.params "source")))
      × (lookup "com.splunk.sourcetype" b ≡ value_of (get cfg.input.stanza.params "sourcetype"))
      × (lookup "com.splunk.index" b ≡ value_of (get cfg.input.stanza.params "index"))
      × (lookup "com.splunk.host" b ≡ none)
      × (lookup "host" b ≡ value_of (get cfg.input.stanza.params "host"))
base_config-sent S quote kind cfg R d path b l =
    let params = cfg.input.stanza.params in
    let a = entry_attributes params path in
    let attributes : (λ k. lookup k a) ≡ value params path =
      fun_ext (lookup-entry_attributes params path) in
    let at : (k : String) → lookup k b ≡ sent_attributes kind (value params path) k = λ k.
      (base_config-Becomes S quote kind cfg R d a).1 b l k
      ∙ ap (λ f. sent_attributes kind f k) attributes in
    let (type, index, no_host, host) = metadata-value kind params path in
    (
      at "com.splunk.source" ∙ source-value kind params path,
      at "com.splunk.sourcetype" ∙ type,
      at "com.splunk.index" ∙ index,
      at "com.splunk.host" ∙ no_host,
      at "host" ∙ host,
    )
