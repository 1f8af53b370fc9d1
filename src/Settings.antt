-- ===== src/Settings.antt =====
-- internal/config/config.go, the file tarunner.yaml, and internal/collector/otlp.go and hec.go, the
-- exporter that it chooses. What the libraries do is a parameter: `Raw` is the type of decoded YAML.
use tarunner.Base.{String, Option, none, some, ◌==◌, string_eq, if◌then◌else◌}
use tarunner.Base.Result.{Error, Result, ok, err, ◌>>=◌}

pub record Config : Type 0 where
  pub type : String
  pub endpoint : String
  pub token : String

-- yaml.Unmarshal into a map, and `Unmarshal` of confmap, which sets the fields that the map has, and
-- may set some before it finds an error.
pub record Decoder (Raw : Type 0) : Type 0 where
  pub yaml : String → Result Raw
  pub unmarshal : Raw → Config → Config × Option Error

abbrev pub defaults : Config
defaults = record { type = "otlp_http"; endpoint = "http://localhost:4318"; token = "" }

-- The error of the second decoding comes with a configuration. `read_file` is os.ReadFile.
unfoldable pub load_config :
    {Raw : Type 0} → (String → Result String) → Decoder Raw → String → Option Config × Option Error
load_config read_file decoder path = elim (read_file path) [
  | err e ↦ (none, some e)
  | ok b ↦ elim (decoder.yaml b) [
    | err e ↦ (none, some e)
    | ok raw_conf ↦ let (cfg, e) = decoder.unmarshal raw_conf defaults in (some cfg, e)
  ]
]

-- The factories of the exporters, from their default configurations with the fields that the
-- program sets: the endpoint, and for the second the token.
pub record Exporters : Type 0 where
  -- zap.NewProduction
  pub new_production : Result {0} Unit
  pub validate_otlp : String → Result {0} Unit
  pub create_otlp : String → Result {0} Unit
  pub validate_hec : String → String → Result {0} Unit
  pub create_hec : String → String → Result {0} Unit

unfoldable pub new_otlp_http_exporter : Exporters → String → Result {0} Unit
new_otlp_http_exporter x endpoint = do _ ← x.validate_otlp endpoint; x.create_otlp endpoint

unfoldable pub new_hec_exporter : Exporters → String → String → Result {0} Unit
new_hec_exporter x endpoint token = do
  _ ← x.validate_hec endpoint token
  x.create_hec endpoint token

-- What `Run` does before it reads the add-on's files.
unfoldable pub new_exporter : Exporters → Config → Result {0} Unit
unfolding new_otlp_http_exporter new_hec_exporter
new_exporter x cfg = do
  _ ← x.new_production
  if cfg.type == "otlp_http"
      then new_otlp_http_exporter x cfg.endpoint
      else new_hec_exporter x cfg.endpoint cfg.token
