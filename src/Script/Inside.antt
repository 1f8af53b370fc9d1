-- ===== src/Script/Inside.antt =====
-- Paths below a directory, and the paths of internal/script/command.go.
use tarunner.Base.{
  ◌≡◌, sym, ◌≢◌, ◌⊎◌, inl, inr, String, false, List, ◌++◌, ◌==◌, string_eq, eq_iff, Bool-cases,
}
use tarunner.Base.Result.{ok, >>=-eq-ok, ok_inj}
use tarunner.Conf.Data.{Input}
use tarunner.Env.{Env, Url}
use tarunner.FilePath
use tarunner.FilePath.Relative.{is_outside, rel-inside}
use tarunner.Script.{resolve_path, get_path, command_of_url, determine_command_name}

-- `path` lies below the directory: cleaned, it has the directory's elements, then others, it is
-- not the directory, and the way down does not begin with two dots.
pub record IsBelow (dir path : String) : Type 0 where
  pub down : List String
  pub elements :
      FilePath.target_elements (FilePath.parse path) ≡ (FilePath.parse dir).elements ++ down
  pub rooted : (FilePath.parse dir).rooted ≡ (FilePath.parse path).rooted
  pub other : FilePath.clean path ≢ FilePath.clean dir
  pub no_dots : is_outside (FilePath.join_elements down) ≡ false

module _ (env : Env) where
  -- What `GetPath` returns lies below the absolute base directory, whatever path it is given.
  pub get_path-IsBelow :
      (base_dir path resolved : String)
      → get_path env base_dir path ≡ ok resolved
      → (abs_base : String) × (FilePath.abs env.getwd base_dir ≡ ok abs_base)
        × IsBelow abs_base resolved
  unfolding get_path
  get_path-IsBelow base_dir path resolved e =
      let (r, e₁, rest₁) = >>=-eq-ok (resolve_path env base_dir path) _ e in
      let (dir, e₂, rest₂) = >>=-eq-ok (FilePath.abs env.getwd base_dir) _ rest₁ in
      let (rel, e₃, rest₃) = >>=-eq-ok (FilePath.rel dir r) _ rest₂ in
      elim (Bool-cases (is_outside rel)) [
        | inl outside ↦ cc (rw outside at rest₃)
        | inr inside ↦
            let same : r ≡ resolved = ok_inj (rw inside at rest₃) in
            let (down, elements, other, joined, rooted) = rel-inside dir r rel e₃ inside in
            rw (← same) (
              dir,
              e₂,
              record {
                down = down;
                elements = elements;
                rooted = rooted;
                other = other;
                no_dots = rw (← joined) inside;
              },
            )
      ]

  command_of_url_lem :
      (base_dir : String) (input : Input) (parsed : Url) (command : String)
      → command_of_url env base_dir input parsed ≡ ok command
      → ((parsed.scheme ≡ "monitor") × (command ≡ parsed.path))
        ⊎ (((parsed.scheme ≡ "script") ⊎ (parsed.scheme ≡ ""))
            × ((path : String) × (get_path env base_dir path ≡ ok command)))
  unfolding command_of_url
  command_of_url_lem base_dir input parsed command e =
      elim (Bool-cases (parsed.scheme == "monitor")) [
        | inl m ↦
            inl ((eq_iff parsed.scheme "monitor").0 m, ok_inj (sym (rw (m, command_of_url) at e)))
        | inr m ↦ elim (Bool-cases (parsed.scheme == "script")) [
          | inl s ↦
              inr (inl ((eq_iff parsed.scheme "script").0 s), (_, rw (m, s, command_of_url) at e))
          | inr s ↦ elim (Bool-cases (parsed.scheme == "")) [
            | inl n ↦
                inr (inr ((eq_iff parsed.scheme "").0 n), (_, rw (m, s, n, command_of_url) at e))
            | inr n ↦ cc (rw (m, s, n, command_of_url) at e)
          ]
        ]
      ]

  -- The command of an input is the path of the URL if its scheme is `monitor`; for a script and
  -- for an input without a scheme it lies below the base directory; any other scheme is an error.
  pub determine_command_name-IsBelow :
      (base_dir : String) (input : Input) (parsed : Url) (command : String)
      → env.url_parse input.stanza.name ≡ ok parsed
      → determine_command_name env base_dir input ≡ ok command
      → ((parsed.scheme ≡ "monitor") × (command ≡ parsed.path))
        ⊎ (((parsed.scheme ≡ "script") ⊎ (parsed.scheme ≡ ""))
            × ((abs_base : String) × (FilePath.abs env.getwd base_dir ≡ ok abs_base)
                × IsBelow abs_base command))
  unfolding determine_command_name
  determine_command_name-IsBelow base_dir input parsed command u e =
      elim (command_of_url_lem base_dir input parsed command (rw u at e)) [
        | inl monitor ↦ inl monitor
        | inr (scheme, (path, got)) ↦ inr (scheme, get_path-IsBelow base_dir path command got)
      ]
