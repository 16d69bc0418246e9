-- ===== src/Npm/Certificates/Reads.antt =====
-- The states that the certificate methods go through, and what the reading requests keep and find.
use edgekit.Npm.Laws.{Lists}
use edgekit.Npm.Client.Requests.{Answered}
use edgekit.Npm.Api.{reply, broken, timed_out, Reply}
use edgekit.Base.{Triple-lift}
use Prim.Native.String.{String}
use edgekit.Base.{ℕ, true, false, ◌≡◌, ◌⊎◌, List, [], ◌∷◌, arith, any, subst, refl, ◌∙◌}
use edgekit.Base.{ok, Triple, Keeps, Triple-bind, Triple-pure, Keeps-pure, Keeps-bind}
use edgekit.Base.Json.{Json, entries}
use edgekit.Npm.Api.{reply, broken, timed_out, Server, Request}
use edgekit.Npm.Client.{Link, request}
use edgekit.Npm.Client.Requests.{Survives, SurvivesLogins, request-Triple}
use edgekit.Npm.Hosts.{list_proxy_hosts, list_hosts_request}
use edgekit.Npm.Certificates.{
  using, list_request, find_certificates, list_certificates, hosts_using,
}
use edgekit.Npm.Laws.{View, in_use, refers, Same, IsNpm}

module _ {S : Server} (V : View S) where
  -- Every certificate that a host serves with is there; 0 stands for none.
  pub record NoDangling (t : S.State) : Type 0 where
    pub served : (n : ℕ) → in_use V t n ≡ true → (n ≡ 0) ⊎ (V.has_cert t n ≡ true)

  -- Besides, the certificate `c` is there.
  pub record Holding (c : ℕ) (t : S.State) : Type 0 where
    pub intact : NoDangling t
    pub held : V.has_cert t c ≡ true

  -- Besides, no host serves with `m`.
  pub record Unused (m : ℕ) (t : S.State) : Type 0 where
    pub intact : NoDangling t
    pub free : in_use V t m ≡ true → m ≡ 0

module _ {S : Server} where
  -- Kept by what changes neither hosts nor certificates.
  abbrev pub Stable : (V : View S) → (S.State → Type 0) → Type 0
  Stable V P = (t u : S.State) → Same V t u → P t → P u

module _ {S : Server} {V : View S} where
  pub NoDangling-Stable : Stable V (NoDangling V)
  NoDangling-Stable t u same h = record {
    served = λ n e.
        rw same.certs
          (h.served n (subst (λ (l : List Json). any (refers n) l ≡ true) same.hosts e));
  }

  pub Holding-Stable : (c : ℕ) → Stable V (Holding V c)
  Holding-Stable c t u same h = record {
    intact = NoDangling-Stable t u same h.intact;
    held = same.certs c ∙ h.held;
  }

  pub Unused-Stable : (m : ℕ) → Stable V (Unused V m)
  Unused-Stable m t u same h = record {
    intact = NoDangling-Stable t u same h.intact;
    free = λ e. h.free (subst (λ (l : List Json). any (refers m) l ≡ true) same.hosts e);
  }

-- A scan that finds no host shows that no host serves with the certificate.
pub using-nil : (n : ℕ) (hosts : List Json) → using n hosts ≡ ok [] → any (refers n) hosts ≡ false
unfolding using refers
using-nil n [] h = refl
using-nil n (x ∷ xs) h = ground (arith, using-nil n xs)

module _ (S : Server) (P : S.State → Type 0) where
  pub keeps-Answered : (r : Reply × S.State) → P r.1 → Answered S P (λ _. P) r
  keeps-Answered (reply status body, t) p = λ j _ _. p
  keeps-Answered (broken, t) p = tt
  keeps-Answered (timed_out, t) p = tt

  listed :
      (V : View S) (r : Reply × S.State)
      → P r.1
      → Lists V r
      → Answered S P (λ j t. P t × (entries j ≡ V.hosts t)) r
  listed V (reply status body, t) p l = λ j fine e. (p, l j fine e)
  listed V (broken, t) p l = tt
  listed V (timed_out, t) p l = tt

module _ {S : Server} {V : View S} (laws : IsNpm V) where
  -- An action keeps `P` of the server.
  abbrev pub On : (S.State → Type 0) → Link S → Type 0
  On P s = P s.server

  module _ (P : S.State → Type 0) (stable : Stable V P) where
    pub logins : SurvivesLogins S P
    logins c token t p = stable _ _ (laws.login c token t) p

    -- A request keeps what its answers keep.
    pub request-Keeps : (req : Request) → Survives S P req → Keeps (On P) (request S req)
    request-Keeps req stays =
        request-Triple S logins req (λ _. P) stays
          λ token t p. keeps-Answered S P _ (stays token t p)

    pub list_proxy_hosts-Lists :
        Triple
          (On P)
          (list_proxy_hosts S)
          (λ hosts s. P s.server × (hosts ≡ V.hosts s.server))
          (λ e. On P)
    unfolding list_proxy_hosts
    list_proxy_hosts-Lists =
        Triple-bind (λ j s. P s.server × (entries j ≡ V.hosts s.server))
          (request S (list_hosts_request S)) _
          (request-Triple S logins (list_hosts_request S) (λ j t. P t × (entries j ≡ V.hosts t))
            (λ token t p. stable _ _ (laws.list_hosts token t).0 p)
            (λ token t p.
              listed S P V _ (stable _ _ (laws.list_hosts token t).0 p)
                (laws.list_hosts token t).1))
          (λ j. Triple-pure (entries j) (λ s k. k))

    -- The hosts that use `m`, with what they say of the server.
    pub hosts_using-Lists :
        (m : ℕ)
        → Triple
            (On P)
            (hosts_using S m)
            (λ hosts s. P s.server × (using m (V.hosts s.server) ≡ ok hosts))
            (λ e. On P)
    unfolding hosts_using
    hosts_using-Lists m =
        Triple-bind (λ hosts s. P s.server × (hosts ≡ V.hosts s.server)) (list_proxy_hosts S) _
          list_proxy_hosts-Lists
          (λ hosts.
            Triple-lift (using m hosts)
              (λ found s k e. (k.0, subst (λ (l : List Json). using m l ≡ ok found) k.1 e))
              (λ e s k. k.0))

    pub list_certificates-Keeps : Keeps (On P) (list_certificates S)
    unfolding list_certificates
    list_certificates-Keeps =
        Keeps-bind _ _
          (request-Keeps (list_request S)
            (λ token t p. stable _ _ (laws.list_certificates token t).0 p))
          (λ j. Keeps-pure (entries j))

    pub find_certificates-Keeps : (name : String) → Keeps (On P) (find_certificates S name)
    unfolding find_certificates
    find_certificates-Keeps name = Keeps-bind _ _ list_certificates-Keeps (λ certs. Keeps-pure _)
