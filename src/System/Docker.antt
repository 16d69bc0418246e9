-- ===== src/System/Docker.antt =====
-- `container_state`, `exec_in` and `nginx_config_test` of system/dockerx.py. `loads` is
-- `json.loads`, none where it raises.
use edgekit.System.Shell.{succeeded, run, Result, Host}
use edgekit.Base.{
  includes, pure, ◌||◌, [], ◌∷◌, ◌==◌, str_eq, ◌>>=◌, strip, none, if◌then◌else◌, some, false, List,
  Exec, Bool, String, Option,
}
use edgekit.Base.Json.{truthy, Json}
use edgekit.Base.Json

-- `json.loads(text)[0]`
abbrev pub first_of : Option Json → Option Json
first_of (some (Json.arr (Json.cons x xs))) = some x
first_of _ = none

-- The part of the state that the callers read.
unfoldable pub is_running : Option Json → Bool
is_running none = false
is_running (some j) = truthy (Json.get "Running" (Json.get "State" j))

module _ (H : Host) (loads : String → Option Json) where
  -- `container_state(container).get("running")`
  unfoldable pub container_running : String → Exec H.State Bool
  container_running container = run H ("docker" ∷ "inspect" ∷ container ∷ []) >>= λ r.
      pure (if succeeded r then is_running (first_of (loads r.stdout)) else false)

  unfoldable pub exec_in : String → List String → Exec H.State Result
  exec_in container argv = run H ("docker" ∷ "exec" ∷ container ∷ argv)

  -- `(result.stderr or result.stdout).strip()`
  abbrev message : Result → String
  message r = strip (if str_eq r.stderr "" then r.stdout else r.stderr)

  unfoldable pub verdict : Result → Option Bool
  verdict r =
      if r.returncode == 124
        || r.returncode == 125
        || r.returncode == 126
        || r.returncode == 127
        || includes "No such container" (message r)
      then none
      else some (succeeded r)

  -- True, False, or none if the test could not be run.
  unfoldable pub nginx_config_test : String → Exec H.State (Option Bool)
  nginx_config_test container = do
    up ← container_running container
    if up then (exec_in container ("nginx" ∷ "-t" ∷ []) >>= λ r. pure (verdict r)) else pure none
