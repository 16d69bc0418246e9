-- ===== src/Npm/Laws.antt =====
-- What the methods of `NPMClient` rely on of the server: which requests change which of its proxy
-- hosts and certificates. Whatever a request does that is not refused, the laws allow it to happen
-- for a refused or broken request too, since a connection may break after the change was made.
use edgekit.Base.{ℕ, Bool, true, false, ◌≡◌, ◌≢◌, ◌⊎◌, ◌==◌, List, any, leb}
use edgekit.Base.{Outcome, ok, raised}
use edgekit.Base.Json
use edgekit.Base.Json.{Json, num, entries}
use edgekit.Npm.Api.{Server, Reply, reply, content}
use edgekit.Npm.Letsencrypt.{Challenge, challenge_request}
use edgekit.Base.{All}
use edgekit.Npm.Client.{Client, login_request}
use edgekit.Npm.Hosts.{list_hosts_request}
use edgekit.Npm.Certificates.{
  certificate_of, list_request, move_request, delete_request, create_request, upload_request,
}
use Prim.Native.String.{String}
use mathlib.Core.Option.{Option}

-- The host serves with the certificate `n`.
abbrev pub is_ok : Outcome ℕ → ℕ → Bool
is_ok (ok m) n = m == n
is_ok (raised e) n = false

unfoldable pub refers : ℕ → Json → Bool
refers n host = is_ok (certificate_of host) n

-- What the server holds of this.
pub record View (S : Server) : Type 0 where
  pub hosts : S.State → List Json
  pub has_cert : S.State → ℕ → Bool

module _ {S : Server} (V : View S) where
  abbrev pub in_use : S.State → ℕ → Bool
  in_use t n = any (refers n) (V.hosts t)

  -- Neither hosts nor certificates change.
  pub record Same (t u : S.State) : Type 0 where
    pub hosts : V.hosts u ≡ V.hosts t
    pub certs : (n : ℕ) → V.has_cert u n ≡ V.has_cert t n

  -- A successful answer lists the hosts.
  abbrev pub Lists : Reply × S.State → Type 0
  Lists (reply status body, u) =
      (j : Json) → leb 400 status ≡ false → content body ≡ ok j → entries j ≡ V.hosts u
  Lists _ = Unit

  -- A successful answer names a new certificate by its number.
  abbrev pub Creates : S.State → Reply × S.State → Type 0
  Creates t (reply status body, u) =
      (j : Json)
      → leb 400 status ≡ false
      → content body ≡ ok j
      → (n : ℕ) × (Json.item "id" j ≡ ok (num n))
        × (V.has_cert t n ≡ false)
        × (V.has_cert u n ≡ true)
  Creates t _ = Unit

  -- The entry names a certificate that is there.
  abbrev pub NamesCert : S.State → Json → Type 0
  NamesCert t c = (n : ℕ) × (Json.item "id" c ≡ ok (num n)) × (V.has_cert t n ≡ true)

  -- A successful answer lists certificates that are there.
  abbrev pub CertLists : Reply × S.State → Type 0
  CertLists (reply status body, u) =
      (j : Json) → leb 400 status ≡ false → content body ≡ ok j → All (NamesCert u) (entries j)
  CertLists _ = Unit

  -- A successful answer names a certificate that is there.
  abbrev pub Obtains : Reply × S.State → Type 0
  Obtains (reply status body, u) =
      (j : Json) → leb 400 status ≡ false → content body ≡ ok j → NamesCert u j
  Obtains _ = Unit

  pub record IsNpm : Type 0 where
    pub login :
        (c : Client) (token : Option Json) (t : S.State)
        → Same t (S.send token (login_request S c) t).1
    pub list_hosts :
        (token : Option Json) (t : S.State)
        → Same t (S.send token (list_hosts_request S) t).1
          × Lists (S.send token (list_hosts_request S) t)
    pub list_certificates :
        (token : Option Json) (t : S.State)
        → Same t (S.send token (list_request S) t).1 × CertLists (S.send token (list_request S) t)
    pub upload :
        (id : Json) (cert key : String) (token : Option Json) (t : S.State)
        → Same t (S.send token (upload_request S id cert key) t).1
    pub create_hosts :
        (name : String) (token : Option Json) (t : S.State)
        → V.hosts (S.send token (create_request S name) t).1 ≡ V.hosts t
    pub create_certs :
        (name : String) (token : Option Json) (t : S.State) (n : ℕ)
        → V.has_cert t n ≡ true
        → V.has_cert (S.send token (create_request S name) t).1 n ≡ true
    pub creates :
        (name : String) (token : Option Json) (t : S.State)
        → Creates t (S.send token (create_request S name) t)
    pub move_certs :
        (id : Json) (m : ℕ) (token : Option Json) (t : S.State) (n : ℕ)
        → V.has_cert (S.send token (move_request S id (num m)) t).1 n ≡ V.has_cert t n
    pub move_hosts :
        (id : Json) (m : ℕ) (token : Option Json) (t : S.State) (n : ℕ)
        → in_use (S.send token (move_request S id (num m)) t).1 n ≡ true
        → (in_use t n ≡ true) ⊎ (n ≡ m)
    pub delete_hosts :
        (m : ℕ) (token : Option Json) (t : S.State)
        → V.hosts (S.send token (delete_request S (num m)) t).1 ≡ V.hosts t
    pub delete_certs :
        (m : ℕ) (token : Option Json) (t : S.State) (n : ℕ)
        → n ≢ m
        → V.has_cert (S.send token (delete_request S (num m)) t).1 n ≡ V.has_cert t n
    pub challenge_hosts :
        (c : Challenge) (meta : List (String × Json)) (token : Option Json) (t : S.State)
        → V.hosts (S.send token (challenge_request c meta) t).1 ≡ V.hosts t
    pub challenge_certs :
        (c : Challenge) (meta : List (String × Json)) (token : Option Json) (t : S.State) (n : ℕ)
        → V.has_cert t n ≡ true
        → V.has_cert (S.send token (challenge_request c meta) t).1 n ≡ true
    pub challenge_obtains :
        (c : Challenge) (meta : List (String × Json)) (token : Option Json) (t : S.State)
        → Obtains (S.send token (challenge_request c meta) t)
