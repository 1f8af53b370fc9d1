-- ===== src/Script.antt =====
-- internal/script/command.go: the program that an input runs, or the file that it watches.
pub mod Inside
use tarunner.Base.{
  String, ◌<>◌, starts_with, Bool, true, false, ◌||◌, List, [], ◌∷◌, ◌==◌, string_eq, if◌then◌else◌,
}
use tarunner.Base.Result.{Result, ok, err, Error, unknown_scheme, outside_base_dir, ◌>>=◌}
use tarunner.Conf.Data.{Input}
use tarunner.Env.{Env, Url}
use tarunner.FilePath
use tarunner.FilePath.Relative.{is_outside}

module _ (env : Env) where
  unfoldable pub resolve_path : String → String → Result String
  resolve_path base_dir path =
      if FilePath.is_abs path
      then ok path
      else FilePath.abs env.getwd (FilePath.join (base_dir ∷ path ∷ []))

  unfoldable pub get_path : String → String → Result String
  unfolding resolve_path
  get_path base_dir path = do
    resolved_path ← resolve_path base_dir path
    abs_base_dir ← FilePath.abs env.getwd base_dir
    rel_path ← FilePath.rel abs_base_dir resolved_path
    if is_outside rel_path
        then err (outside_base_dir (FilePath.clean resolved_path))
        else ok resolved_path

  unfoldable pub command_of_url : String → Input → Url → Result String
  unfolding get_path
  command_of_url base_dir input parsed =
      if parsed.scheme == "monitor"
      then ok parsed.path
      else if parsed.scheme == "script"
      then get_path base_dir (FilePath.join (parsed.host ∷ parsed.path ∷ []))
      else if parsed.scheme == ""
      then get_path base_dir
          (FilePath.join ("bin" ∷ (env.goos <> ("_" <> env.goarch)) ∷ input.stanza.name ∷ []))
      else err (unknown_scheme parsed.scheme)

  unfoldable pub determine_command_name : String → Input → Result String
  unfolding command_of_url
  determine_command_name base_dir input = do
    parsed ← env.url_parse input.stanza.name
    command_of_url base_dir input parsed
