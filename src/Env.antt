-- ===== src/Env.antt =====
-- What the program takes from Go's library and the machine: net/url, os.Getwd, the names of the
-- platform, and the verb %q of fmt.
use tarunner.Base.{String}
use tarunner.Base.Result.{Result}

-- The fields of `url.URL` that the program reads.
pub record Url : Type 0 where
  pub scheme : String
  pub host : String
  pub path : String

pub record Env : Type 0 where
  pub url_parse : String → Result Url
  pub getwd : Result String
  pub goos : String
  pub goarch : String
  pub quote : String → String
