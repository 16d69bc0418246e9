-- ===== src/Tests/Cloudflare.antt =====
-- The theorem on permissions with an API that lets its token do all but issue origin certificates.
use edgekit.Cloudflare.Permissions.{require_zone_permissions-granted, Reports, succeeds, Refuses}
use edgekit.Cloudflare.Zone.{require_zone_permissions, probes}
use edgekit.Base.{◌+◌, [], ◌∷◌, true, false, ◌≡◌, After, ℕ, Bool, refl}
use edgekit.Base.Json
use edgekit.Base.Json.{flag, object, truthy}
use edgekit.Npm.Api.{json, reply}
use edgekit.Cloudflare.Client.{Api, Account, Resource}

abbrev zone_token : Resource → Bool
zone_token Resource.origin_certificates = false
zone_token _ = true

abbrev zone_api : Api
zone_api = record {
  State = ℕ;
  send = λ key call n.
      (reply 200 (json (object (("success", flag (zone_token call.path)) ∷ []))), n + 1);
}

abbrev without_key : Account
without_key = record { origin_ca_key = "" }

zone_api-Refuses : Refuses zone_api zone_token
unfolding succeeds truthy Json.get object
zone_api-Refuses call n e = rw e refl

require_zone_permissions-granted_example :
    After
      (λ cs _.
        Reports zone_token (probes "z1") cs
        × (zone_token (Resource.dns_records "z1") ≡ true)
        × (zone_token (Resource.ssl "z1") ≡ true))
      (λ e _. Unit {0})
      (require_zone_permissions zone_api without_key "z1" 0)
require_zone_permissions-granted_example =
    (require_zone_permissions-granted zone_api without_key zone_token "z1" zone_api-Refuses).at 0 tt
