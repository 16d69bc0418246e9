-- ===== src/Npm/Bootstrap/Returns.antt =====
-- What a return of `bootstrap_admin` says.
use edgekit.Npm.Bootstrap.{
  default_password, default_email, require_login, created_user, create_or_fail, bootstrap_admin,
  set_password, create_initial_user, after_creation, adopt,
}
use edgekit.Base.{
  Triple-lift-bind, lift, ◌&&◌, raise, npm_error, Triple-raise, str_eq, Keeps-raise, Keeps-if,
  Keeps-pure, Keeps-bind, raised, Keeps-attempt, ◌>>◌, some, ok, none, leb, After, ◌>>=◌, true,
  refl, false, Triple-weaken, Triple-pure, Triple-if, Outcome, ◌≡◌, pure, Triple-bind, Exec, Triple,
  Option, Failure, Bool, String, ℕ,
}
use edgekit.Npm.Client.{
  login_probe, server_info, is_http, set_token, deliver, wait_for_login, Response, catch_http, Link,
}
use edgekit.Npm.Bootstrap.Login.{deliver-Creds, wait_for_login-IfTrue, LoggedIn, IfTrue, Creds}
use edgekit.Base.Json.{truthy, Json}
use edgekit.Npm.Api.{Request, Server}

module _ (S : Server) (email password : String) where
  -- Nothing is said of a state in which an exception was raised.
  abbrev Anything : Failure → Link S → Type 0
  Anything e s = Unit

  -- True only with the new credentials accepted.
  abbrev Accepted : Bool → Link S → Type 0
  Accepted b s = b ≡ true → LoggedIn S email password s

  ends : (b : Bool) → Triple (IfTrue S email password b) (pure {S = Link S} b) Accepted Anything
  ends b = Triple-pure b (λ s h t. (h.0, h.1 t))

  abbrev New : Link S → Type 0
  New = Creds S email password

  wait-Accepted : (n : ℕ) → Triple New (wait_for_login S n) Accepted Anything
  wait-Accepted n =
      Triple-weaken _ (wait_for_login-IfTrue S email password n) (λ s h. h)
        (λ b s h t. (h.0, h.1 t)) (λ e s h. tt)

  stop : {P : Link S → Type 0} → Triple P (pure {S = Link S} false) Accepted Anything
  stop = Triple-pure false (λ s h f. cc)

  wait_twice :
      (n : ℕ) (k : Bool → Exec (Link S) Bool)
      → ((b : Bool) → Triple (IfTrue S email password b) (k b) Accepted Anything)
      → Triple New (wait_for_login S n >>= k) Accepted Anything
  wait_twice n k h =
      Triple-bind (IfTrue S email password) _ _
        (Triple-weaken _ (wait_for_login-IfTrue S email password n) (λ s c. c) (λ b s c. c)
          (λ e s c. tt))
        h

  catch_deliver-New :
      (req : Request)
      → Triple New
          (catch_http (deliver S none req >> pure true) (λ _. pure false))
          (λ _. New)
          Anything
  unfolding catch_http
  catch_deliver-New req =
      Triple-weaken _
        (Keeps-attempt _ _
          (Keeps-bind _ _ (deliver-Creds S email password none req) (λ _. Keeps-pure true))
          (λ e. Keeps-if (is_http e) _ _ (Keeps-pure false) (Keeps-raise e)))
        (λ s h. h) (λ a s h. h) (λ e s h. tt)

  set_password-Accepted :
      (user_id : Json) → Triple New (set_password S user_id password) Accepted Anything
  unfolding set_password
  set_password-Accepted user_id =
      Triple-if (truthy user_id) _ _
        (λ _.
          Triple-bind (λ _. New) _ _ (catch_deliver-New _)
            (λ sent.
              Triple-if sent _ _
                (λ _. Triple-bind (λ _. New) _ _ (set_token-New none) (λ _. wait-Accepted 5))
                (λ _. stop)))
        (λ _. stop)
    where
      set_token-New : (t : Option Json) → Triple New (set_token S t) (λ _. New) Anything
      set_token-New t = unfold set_token in record { at = λ s h. h }

  adopt-New : {P : Link S → Type 0} → Triple P (adopt S email password) (λ _. New) Anything
  unfolding adopt
  adopt-New = record { at = λ s h. (refl, refl) }

  created-Accepted :
      (user : Outcome Json)
      → Triple New (lift user >>= λ user_id. set_password S user_id password) Accepted Anything
  created-Accepted user =
      Triple-lift-bind _ _ (λ e s h. tt) (λ user_id e. set_password-Accepted user_id)

  after_creation-Accepted :
      (r : Response) → Triple (λ _. Unit) (after_creation S email password r) Accepted Anything
  unfolding after_creation
  after_creation-Accepted (status, body) =
      Triple-if (leb 400 status) _ _ (λ _. stop)
        (λ _.
          Triple-bind (λ _. New) _ _ adopt-New
            (λ _. wait_twice 5 _ (λ b.
              Triple-if b _ _ (λ t. Triple-pure true (λ s h _. (h.0, h.1 t)))
                (λ _.
                  Triple-weaken _ (created-Accepted (created_user S body)) (λ s h. h.0) (λ a s h. h)
                    (λ e s h. tt)))))

  anything :
      {A : Type 0} {P : Link S → Type 0} (m : Exec (Link S) A) → Triple P m (λ _ _. Unit) Anything
  anything m = record { at = λ s h. whatever (m s) }
    where
      whatever : {A : Type 0} (r : Outcome A × Link S) → After (λ _ _. Unit {0}) Anything r
      whatever (ok a, s) = tt
      whatever (raised e, s) = tt

  chosen-Accepted :
      (r : Option Response)
      → Triple
          (λ _. Unit)
          (elim r [ none ↦ pure false | some x ↦ after_creation S email password x ])
          Accepted
          Anything
  chosen-Accepted none = stop
  chosen-Accepted (some r) = after_creation-Accepted r

  create_initial_user-Accepted :
      (name : String)
      → Triple (λ _. Unit) (create_initial_user S email password name) Accepted Anything
  unfolding create_initial_user
  create_initial_user-Accepted name = Triple-bind (λ _ _. Unit) _ _ (anything _) chosen-Accepted

  abbrev Sure : Bool → Link S → Type 0
  Sure b s = (b ≡ true) × LoggedIn S email password s

  fail : {P : Link S → Type 0} (e : Failure) → Triple P (raise {A = Bool} e) Sure Anything
  fail e = Triple-raise e (λ s h. tt)

  give_up :
      (name : String)
      → Triple
          (λ _. Unit)
          (server_info S >> (login_probe S email password >> raise (npm_error none)))
          Sure
          Anything
  give_up name =
      Triple-bind (λ _ _. Unit) _ _ (anything (server_info S))
        (λ _.
          Triple-bind (λ _ _. Unit) _ _ (anything (login_probe S email password))
            (λ _. fail (npm_error none)))

  create_or_fail-Sure :
      (name : String) → Triple (λ _. Unit) (create_or_fail S email password name) Sure Anything
  unfolding create_or_fail
  create_or_fail-Sure name = Triple-bind Accepted _ _ (create_initial_user-Accepted name) (λ b.
      Triple-if b _ _ (λ t. Triple-pure true (λ s h. (refl, h t)))
        (λ _. Triple-weaken _ (give_up name) (λ s h. tt) (λ a s h. h) (λ e s h. tt)))

  require_login-Sure : Triple New (require_login S) Sure Anything
  unfolding require_login
  require_login-Sure = Triple-bind Accepted _ _ (wait-Accepted 5) (λ b.
      Triple-if b _ _ (λ t. Triple-pure true (λ s h. (refl, h t))) (λ _. fail (npm_error none)))

  abbrev pub shipped : String → String → Bool
  shipped e p = str_eq e default_email && str_eq p default_password

  module _ (old_email old_password : String) where
    pub record Bootstrapped (b : Bool) (s : Link S) : Type 0 where
      pub not_default : shipped email password ≡ false
      pub kept : b ≡ false → LoggedIn S old_email old_password s
      pub changed : b ≡ true → LoggedIn S email password s
      pub not_shipped :
          shipped old_email old_password ≡ false → shipped s.client.email s.client.password ≡ false

    holding :
        (e p : String) (s : Link S)
        → Creds S e p s
        → shipped e p ≡ false
        → shipped s.client.email s.client.password ≡ false
    holding e p s c h = rw (c.0, c.1) h

    of_Sure :
        {P : Link S → Type 0} (m : Exec (Link S) Bool)
        → (str_eq email default_email && str_eq password default_password) ≡ false
        → Triple P m Sure Anything
        → Triple P m Bootstrapped Anything
    of_Sure m fine k =
        Triple-weaken m k (λ s h. h)
          (λ b s h. record {
            not_default = fine;
            kept = λ f. cc (f, h.0);
            changed = λ _. h.1;
            not_shipped = λ _. holding email password s h.1.0 fine;
          })
          (λ e s h. tt)

    -- From a client with the old credentials, `bootstrap_admin` returns only if the new ones are not
    -- the shipped ones. Then, if the result is False, the client has the old credentials and a token;
    -- if it is True, the new credentials and a token; and if the old credentials are not the shipped
    -- ones, the client does not hold those.
    pub bootstrap_admin-Bootstrapped :
        (name : String)
        → Triple
            (Creds S old_email old_password)
            (bootstrap_admin S email password name)
            Bootstrapped
            (λ _ _. Unit)
    unfolding bootstrap_admin
    bootstrap_admin-Bootstrapped name =
        Triple-if (str_eq email default_email && str_eq password default_password) _ _
          (λ _. Triple-raise (npm_error none) (λ s h. tt))
          (λ fine.
            Triple-bind (IfTrue S old_email old_password) _ _
              (Triple-weaken _ (wait_for_login-IfTrue S old_email old_password 3) (λ s h. h)
                (λ b s h. h) (λ e s h. tt))
              (λ b.
                Triple-if b _ _
                  (λ t. Triple-pure false (λ s h. record {
                    not_default = fine;
                    kept = λ _. (h.0, h.1 t);
                    changed = λ f. cc;
                    not_shipped = holding old_email old_password s h.0;
                  }))
                  (λ _. of_Sure _ fine (
                    Triple-bind (λ _ _. Unit) _ _ (anything _)
                      (λ rotated.
                        Triple-if rotated _ _
                          (λ _. Triple-bind (λ _. New) _ _ adopt-New (λ _. require_login-Sure))
                          (λ _. create_or_fail-Sure name))))))
