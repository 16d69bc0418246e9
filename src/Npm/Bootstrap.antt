-- ===== src/Npm/Bootstrap.antt =====
-- `create_initial_user` and `bootstrap_admin` of services/npm.py.
pub mod Login
pub mod Returns
use edgekit.Base.{
  lift, Outcome, npm_error, [], ◌∷◌, ◌>>◌, some, raise, ◌&&◌, true, false, str_eq, pure, none, leb,
  ◌>>=◌, ok, if◌then◌else◌, Exec, ℕ, String, Bool,
}
use edgekit.Base.Json.{null, flag, text_items, arr, text, truthy, object, Json}
use edgekit.Npm.Client.{
  set_token, login_probe, server_info, request, deliver, wait_for_login, catch_http, Link, Response,
  Client,
}
use edgekit.Npm.Api.{users, user_auth, me_auth, me, json, Verb, Request, Body, Server}
use edgekit.Base.Json

abbrev pub default_email : String
default_email = "admin@example.com"

abbrev pub default_password : String
default_password = "changeme"

module _ (S : Server) where
  -- `self.email, self.password, self._token = email, password, None`
  unfoldable pub adopt : String → String → Exec (Link S) (Unit {0})
  adopt email password s =
      (ok tt, record s { client = record { email = email; password = password; token = none } })

  -- Runs with another client against the same server.
  unfoldable pub as_client : {A : Type 0} → Client → Exec (Link S) A → Exec (Link S) A
  as_client c m s =
      let (r, s') = m (record s { client = c }) in (r, record s' { client = s.client })

  abbrev user_request : String → String → String → Request
  user_request email password name = record {
    verb = Verb.post;
    endpoint = users;
    payload = object (
        ("name", text name)
        ∷ ("nickname", text name)
        ∷ ("email", text email)
        ∷ ("roles", arr (text_items ("admin" ∷ [])))
        ∷ ("is_disabled", flag false)
        ∷ ("auth", object (("type", text "password") ∷ ("secret", text password) ∷ []))
        ∷ []);
  }

  abbrev user_auth_request : Json → String → Request
  user_auth_request user_id password = record {
    verb = Verb.put;
    endpoint = user_auth user_id;
    payload = object (("type", text "password") ∷ ("secret", text password) ∷ []);
  }

  -- `response.json().get("id")`, none for text that is no JSON; the AttributeError of JSON that is no
  -- object is not caught.
  abbrev pub created_user : Body → Outcome Json
  created_user (json j) = Json.get_of "id" j
  created_user _ = ok null

  -- Some builds ignore the nested password: it is set once more.
  unfoldable pub set_password : Json → String → Exec (Link S) Bool
  set_password user_id password =
      if truthy user_id
      then (do
        sent ←
            catch_http (deliver S none (user_auth_request user_id password) >> pure true)
              (λ _. pure false)
        if sent then (set_token S none >> wait_for_login S 5) else pure false)
      else pure false

  unfoldable pub after_creation : String → String → Response → Exec (Link S) Bool
  after_creation email password (status, body) = if leb 400 status then pure false else (do
    adopt email password
    accepted ← wait_for_login S 5
    if accepted
        then pure true
        else (lift (created_user body) >>= λ user_id. set_password user_id password))

  unfoldable pub create_initial_user : String → String → String → Exec (Link S) Bool
  create_initial_user email password name = do
    response ←
        catch_http (deliver S none (user_request email password name) >>= λ r. pure (some r))
          (λ _. pure none)
    elim response [ none ↦ pure false | some r ↦ after_creation email password r ]

  abbrev me_request : String → String → Request
  me_request email name = record {
    verb = Verb.put;
    endpoint = me;
    payload = object (("name", text name) ∷ ("nickname", text name) ∷ ("email", text email) ∷ []);
  }

  abbrev me_auth_request : String → Request
  me_auth_request password = record {
    verb = Verb.put;
    endpoint = me_auth;
    payload = object (
        ("type", text "password")
        ∷ ("current", text default_password)
        ∷ ("secret", text password)
        ∷ []);
  }

  -- The shipped account takes the new name and password; false if it does not exist.
  unfoldable pub rotate_default : String → String → String → Exec (Link S) Bool
  rotate_default email password name = do
    found ← wait_for_login S 6
    if found
        then (request S (me_request email name)
            >> (request S (me_auth_request password) >> pure true))
        else pure false

  unfoldable pub require_login : Exec (Link S) Bool
  require_login = do
    accepted ← wait_for_login S 5
    if accepted then pure true else raise (npm_error none)

  -- The last resort, and the report that nothing applied.
  unfoldable pub create_or_fail : String → String → String → Exec (Link S) Bool
  create_or_fail email password name = do
    created ← create_initial_user email password name
    if created
        then pure true
        else (server_info S >> (login_probe S email password >> raise (npm_error none)))

  unfoldable pub bootstrap_admin : String → String → String → Exec (Link S) Bool
  bootstrap_admin email password name =
      if str_eq email default_email && str_eq password default_password
      then raise (npm_error none)
      else (do
        already ← wait_for_login S 3
        if already then pure false else (do
          rotated ←
              as_client
                (record { email = default_email; password = default_password; token = none })
                (rotate_default email password name)
          if rotated
              then (adopt email password >> require_login)
              else create_or_fail email password name))
