-- ===== src/Npm/Bootstrap/Login.antt =====
-- `bootstrap_admin` returns only after a login, with the new credentials if it says that it set
-- them, and with those that the client had otherwise.
use edgekit.Base.{
  zero, Triple-weaken, suc, pure, npm_auth_error, false, refl, Keeps-lift, npm_error, leb, raise,
  Triple-raise, ◌||◌, some, none, ◌==◌, Triple-pure, Keeps-gets, Keeps, true, if◌then◌else◌,
  Triple-if, Triple-bind, Triple-attempt, After, ◌≡◌, is_some, Triple, Option, Failure, Bool,
  String, ℕ,
}
use edgekit.Npm.Client.{
  is_npm, wait_for_login, sleep, catch_npm, login_request, received, refused, Response, Client,
  try_login, set_token, login_response, login, deliver, Link,
}
use edgekit.Npm.Api.{parsed, timed_out, broken, reply, Request, Reply, Server}
use edgekit.Base.Json.{truthy, Json}
use edgekit.Base.Json

module _ (S : Server) where
  -- The client's credentials.
  abbrev pub Creds : String → String → Link S → Type 0
  Creds e p s = (s.client.email ≡ e) × (s.client.password ≡ p)

  -- Besides, the server has accepted them: the client holds a token.
  abbrev pub LoggedIn : String → String → Link S → Type 0
  LoggedIn e p s = Creds e p s × (is_some s.client.token ≡ true)

  abbrev pub IfTrue : String → String → Bool → Link S → Type 0
  IfTrue e p b s = Creds e p s × (b ≡ true → is_some s.client.token ≡ true)

  received-Creds :
      (e p : String) (r : Reply × S.State) (c : Client)
      → (c.email ≡ e) × (c.password ≡ p)
      → After (λ _. Creds e p) (λ _. Creds e p) (received S r c)
  received-Creds e p (reply status body, t) c h = h
  received-Creds e p (broken, t) c h = h
  received-Creds e p (timed_out, t) c h = h

  module _ (e p : String) where
    pub deliver-Creds :
        (token : Option Json) (req : Request) → Keeps (Creds e p) (deliver S token req)
    unfolding deliver
    deliver-Creds token req = record {
      at = λ s h. received-Creds e p (S.send token req s.server) s.client h;
    }

    accept-token :
        (token : Json)
        → Triple
            (Creds e p)
            (if truthy token then set_token S (some token) else raise (npm_error none))
            (λ _. LoggedIn e p)
            (λ _. Creds e p)
    unfolding set_token
    accept-token token =
        Triple-if (truthy token) _ _ (λ _. record { at = λ s h. (h, refl) })
          (λ _. Triple-raise _ (λ s h. h))

    login_response-LoggedIn :
        (r : Response)
        → Triple (Creds e p) (login_response S r) (λ _. LoggedIn e p) (λ _. Creds e p)
    unfolding login_response
    login_response-LoggedIn (status, body) =
        Triple-if (status == 400 || status == 401 || status == 403) _ _
          (λ _. Triple-raise _ (λ s h. h))
          (λ _.
            Triple-if (leb 400 status) _ _ (λ _. Triple-raise _ (λ s h. h))
              (λ _.
                Triple-bind (λ _. Creds e p) _ _ (Keeps-lift (parsed body))
                  (λ j.
                    Triple-bind (λ _. Creds e p) _ _ (Keeps-lift (Json.get_of "token" j))
                      accept-token)))

    login-LoggedIn : Triple (Creds e p) (login S) (λ _. LoggedIn e p) (λ _. Creds e p)
    unfolding login
    login-LoggedIn =
        Triple-bind (λ _. Creds e p) _ _ (Keeps-gets (λ s. s.client))
          (λ c.
            Triple-bind (λ _. Creds e p) _ _ (deliver-Creds none (login_request S c))
              login_response-LoggedIn)

    refused-Creds : (x : Failure) → Triple (Creds e p) (refused S x) (IfTrue e p) (λ _. Creds e p)
    unfolding refused
    refused-Creds npm_auth_error = Triple-pure false (λ s h. (h, λ f. cc))
    refused-Creds x = Triple-raise x (λ s h. h)

    try_login-IfTrue : Triple (Creds e p) (try_login S) (IfTrue e p) (λ _. Creds e p)
    unfolding try_login
    try_login-IfTrue =
        Triple-attempt (λ _. Creds e p) _ _
          (Triple-bind (λ _. LoggedIn e p) _ _ login-LoggedIn
            (λ _. Triple-pure true (λ s h. (h.0, λ _. h.1))))
          refused-Creds

    guarded-IfTrue :
        Triple (Creds e p) (catch_npm (try_login S) (λ _. pure false)) (IfTrue e p) (λ _. Creds e p)
    unfolding catch_npm
    guarded-IfTrue =
        Triple-attempt (λ _. Creds e p) _ _ try_login-IfTrue
          (λ x.
            Triple-if (is_npm x) _ _ (λ _. Triple-pure false (λ s h. (h, λ f. cc)))
              (λ _. Triple-raise x (λ s h. h)))

    sleep-Creds : Keeps (Creds e p) (sleep S)
    unfolding sleep
    sleep-Creds = record { at = λ s h. h }

    pub wait_for_login-IfTrue :
        (n : ℕ) → Triple (Creds e p) (wait_for_login S n) (IfTrue e p) (λ _. Creds e p)
    unfolding wait_for_login
    wait_for_login-IfTrue zero = Triple-pure false (λ s h. (h, λ f. cc))
    wait_for_login-IfTrue (suc zero) = guarded-IfTrue
    wait_for_login-IfTrue (suc (suc n)) = Triple-bind (IfTrue e p) _ _ guarded-IfTrue (λ b.
        Triple-if b _ _ (λ t. Triple-pure true (λ s h. (h.0, λ _. h.1 t)))
          (λ _.
            Triple-bind (λ _. Creds e p) _ _
              (Triple-weaken _ sleep-Creds (λ s h. h.0) (λ a s h. h) (λ x s h. h))
              (λ _. wait_for_login-IfTrue (suc n))))
