-- ===== src/Npm/Client/Requests.antt =====
-- `_request` as a rule: what every answer of the server keeps, a request keeps, whether it returns
-- or raises, its logins included.

use edgekit.Base.{
  npm_error, raise, if◌then◌else◌, Triple-pure, lift, Triple-weaken, Triple-raise, Keeps-pure, ◌==◌,
  some, Triple-if, Keeps-gets, Triple-bind, none, Triple, keeps_rules, Keeps, ℕ, false, Option, ◌≡◌,
  refl, leb, ok, After,
}
use edgekit.Base.Json.{truthy, null, Json}
use edgekit.Npm.Client.{
  retry_once, request, login_without, finish, login, ensure_token, deliver_with_token, deliver,
  set_token, Link, Client, Response, received, login_request, login_response,
}
use edgekit.Npm.Api.{
  empty, json, garbage, Server, Request, Reply, reply, broken, timed_out, Body, content,
}

module _ (S : Server) (P : S.State → Type 0) where
  -- `P` survives an answer to `req`, whatever the answer.
  abbrev pub Survives : Request → Type 0
  Survives req = (token : Option Json) (t : S.State) → P t → P (S.send token req t).1

  -- `P` survives every login.
  abbrev pub SurvivesLogins : Type 0
  SurvivesLogins = (c : Client) → Survives (login_request S c)

  -- A successful answer establishes `Q`.
  abbrev pub Answered : (Json → S.State → Type 0) → Reply × S.State → Type 0
  Answered Q (reply status body, t) =
      (j : Json) → leb 400 status ≡ false → content body ≡ ok j → Q j t
  Answered Q _ = Unit

  abbrev pub Answers : Request → (Json → S.State → Type 0) → Type 0
  Answers req Q = (token : Option Json) (t : S.State) → P t → Answered Q (S.send token req t)

module _ (S : Server) {P : S.State → Type 0} (logins : SurvivesLogins S P) where
  abbrev On : (S.State → Type 0) → Link S → Type 0
  On Q s = Q s.server

  received-Keeps :
      (r : Reply × S.State) (c : Client) → P r.1 → After (λ _. On P) (λ _. On P) (received S r c)
  received-Keeps (reply status body, t) c p = p
  received-Keeps (broken, t) c p = p
  received-Keeps (timed_out, t) c p = p

  set_token-Keeps : (token : Option Json) → Keeps (On P) (set_token S token)
  unfolding set_token
  set_token-Keeps token = record { at = λ s p. p }

  accept-Keeps :
      (token : Json)
      → Keeps (On P) (if truthy token then set_token S (some token) else raise (npm_error none))
  accept-Keeps token = search (keeps_rules, set_token-Keeps)

  login_response-Keeps : (r : Response) → Keeps (On P) (login_response S r)
  unfolding login_response
  login_response-Keeps (status, body) = search (keeps_rules, accept-Keeps)

  deliver-Keeps :
      (token : Option Json) (req : Request) → Survives S P req → Keeps (On P) (deliver S token req)
  unfolding deliver
  deliver-Keeps token req h = record {
    at = λ s p. received-Keeps (S.send token req s.server) s.client (h token s.server p);
  }

  deliver_login-Keeps : (c : Client) → Keeps (On P) (deliver S none (login_request S c))
  deliver_login-Keeps c = deliver-Keeps none (login_request S c) (logins c)

  pub login-Keeps : Keeps (On P) (login S)
  unfolding login
  login-Keeps = search (keeps_rules, deliver_login-Keeps, login_response-Keeps)

  login_without-Keeps : (token : Option Json) → Keeps (On P) (login_without S token)
  unfolding login_without
  login_without-Keeps none = login-Keeps
  login_without-Keeps (some token) = Keeps-pure tt

  pub ensure_token-Keeps : Keeps (On P) (ensure_token S)
  unfolding ensure_token
  ensure_token-Keeps = search (keeps_rules, login_without-Keeps)

  module _ (req : Request) (Q : Json → S.State → Type 0) (stays : Survives S P req)
      (answers : Answers S P req Q) where
    -- What is known of a response: `P`, and `Q` of its content if it succeeds.
    abbrev Known : Response → S.State → Type 0
    Known r t = P t × ((j : Json) → leb 400 r.0 ≡ false → content r.1 ≡ ok j → Q j t)

    received-Known :
        (r : Reply × S.State) (c : Client)
        → P r.1
        → Answered S P Q r
        → After (λ a s. Known a s.server) (λ e. On P) (received S r c)
    received-Known (reply status body, t) c p q = (p, q)
    received-Known (broken, t) c p q = p
    received-Known (timed_out, t) c p q = p

    deliver-Known :
        (token : Option Json)
        → Triple (On P) (deliver S token req) (λ r s. Known r s.server) (λ e. On P)
    unfolding deliver
    deliver-Known token = record {
      at = λ s p.
          received-Known (S.send token req s.server) s.client (stays token s.server p)
            (answers token s.server p);
    }

    deliver_with_token-Known :
        Triple (On P) (deliver_with_token S req) (λ r s. Known r s.server) (λ e. On P)
    unfolding deliver_with_token
    deliver_with_token-Known =
        Triple-bind (λ _. On P) _ (λ token. deliver S token req) (Keeps-gets _) deliver-Known

    retry_once-Known :
        (r : Response)
        → Triple
            (λ s. Known r s.server)
            (retry_once S req r)
            (λ r' s. Known r' s.server)
            (λ e. On P)
    unfolding retry_once
    retry_once-Known (status, body) =
        Triple-if (status == 401) _ _
          (λ _.
            Triple-bind (λ _. On P) (login S) (λ _. deliver_with_token S req)
              (Triple-weaken (login S) login-Keeps (λ s k. k.0) (λ a s p. p) (λ e s p. p))
              (λ _. deliver_with_token-Known))
          (λ _. Triple-pure (status, body) (λ s k. k))

    content-Known :
        (status : ℕ) (body : Body)
        → leb 400 status ≡ false
        → Triple
            (λ s. Known (status, body) s.server)
            (lift (content body))
            (λ j s. Q j s.server)
            (λ e. On P)
    unfolding lift
    content-Known status empty fine = record { at = λ s k. k.1 null fine refl }
    content-Known status garbage fine = record { at = λ s k. k.0 }
    content-Known status (json j) fine = record { at = λ s k. k.1 j fine refl }

    finish-Known :
        (r : Response)
        → Triple (λ s. Known r s.server) (finish S r) (λ j s. Q j s.server) (λ e. On P)
    unfolding finish
    finish-Known (status, body) =
        Triple-if (leb 400 status) _ _ (λ _. Triple-raise _ (λ s k. k.0))
          (λ fine. content-Known status body fine)

    -- A request keeps `P` when it raises, and has `Q` of its result when it returns.
    pub request-Triple : Triple (On P) (request S req) (λ j s. Q j s.server) (λ e. On P)
    unfolding request
    request-Triple =
        Triple-bind (λ _. On P) (ensure_token S) _ ensure_token-Keeps
          λ _.
            Triple-bind (λ r s. Known r s.server) (deliver_with_token S req) _
              deliver_with_token-Known
              λ r.
                Triple-bind (λ r' s. Known r' s.server) (retry_once S req r) (finish S)
                  (retry_once-Known r) finish-Known
