-- ===== src/Cloudflare/Records.antt =====
-- The DNS records of `CloudflareClient` in services/cloudflare.py.
use edgekit.Base.Json.{null, entries, truthy, num, object, text, flag, Json}
use edgekit.Base.{
  raised, ok, Outcome, keep, ◌>>◌, ◌==◌, ◌>>=◌, pure, not, lift, false, [], ◌∷◌, ◌&&◌, str_eq,
  if◌then◌else◌, Exec, List, String, Bool, ℕ,
}
use edgekit.Cloudflare.Client.{dns_record, dns_records, fetch, request, Account, Api}
use edgekit.Npm.Api.{Verb}
use edgekit.Base.Json

-- `value == text`, `value == flag`
unfoldable pub is_text : String → Json → Bool
is_text t (text s) = str_eq s t
is_text t _ = false

unfoldable pub is_flag : Bool → Json → Bool
is_flag b (flag c) = if b then c else not c
is_flag b (num n) = if b then n == 1 else n == 0
is_flag b _ = false

abbrev pub managed_comment : String
managed_comment = "Managed by edgekit"

-- What the loop of `upsert_a_record` comes to.
pub data Decision : Type 0 where
  correct : Json → Decision
  change : Json → Decision
  missing : Decision

abbrev by_content : String → Bool → Outcome Json → Json → Outcome Decision
by_content ip proxied (raised e) r = raised e
by_content ip proxied (ok content) r =
    ok
      (if is_text ip content && is_flag proxied (Json.get "proxied" r) then correct r else change r)

abbrev by_type : Outcome Json → Outcome Decision → Outcome Decision → Outcome Decision
by_type (raised e) here rest = raised e
by_type (ok type) here rest = if is_text "A" type then here else rest

-- The first A record decides.
unfoldable pub decide : String → Bool → List Json → Outcome Decision
decide ip proxied [] = ok missing
decide ip proxied (r ∷ rs) =
    let rest = decide ip proxied rs in
    by_type (Json.item "type" r) (by_content ip proxied (Json.item "content" r) r) rest

-- `record.get("content") != ip or bool(record.get("proxied")) == proxied`, and the records that
-- cannot be proxied.
unfoldable pub needs_change : String → Bool → Json → Bool
needs_change ip proxied r =
    is_text ip (Json.get "content" r)
    && not (if proxied then truthy (Json.get "proxied" r) else not (truthy (Json.get "proxied" r)))
    && not (proxied && is_flag false (Json.get "proxiable" r))

module _ (A : Api) (account : Account) (zone_id : String) where
  unfoldable pub list_dns_records : String → Exec A.State (List Json)
  list_dns_records name =
      request A account (
        fetch A account (dns_records zone_id) (
          if str_eq name ""
          then (("per_page", num 100) ∷ [])
          else (("per_page", num 100) ∷ ("name", text name) ∷ [])))
      >>= λ j. pure (entries j)

  unfoldable pub record_payload : String → String → Bool → ℕ → Json
  record_payload name ip proxied ttl = object (
      ("type", text "A")
      ∷ ("name", text name)
      ∷ ("content", text ip)
      ∷ ("proxied", flag proxied)
      ∷ ("ttl", num (if proxied then 1 else ttl))
      ∷ ("comment", text managed_comment)
      ∷ [])

  unfoldable pub act_on : Json → Decision → Exec A.State Json
  act_on payload (correct r) = pure r
  act_on payload (change r) = lift (Json.item "id" r) >>= λ id.
      request A account
        (record { verb = Verb.put; path = dns_record zone_id id; params = null; payload = payload })
  act_on payload missing =
      request A account
        (record { verb = Verb.post; path = dns_records zone_id; params = null; payload = payload })

  unfoldable pub upsert_a_record : String → String → Bool → ℕ → Exec A.State Json
  upsert_a_record name ip proxied ttl = list_dns_records name >>= λ records.
      lift (decide ip proxied records) >>= act_on (record_payload name ip proxied ttl)

  unfoldable pub managed_records : Exec A.State (List Json)
  managed_records =
      request A account (fetch A account (dns_records zone_id) (("per_page", num 1000) ∷ []))
      >>= λ j. pure (keep (λ r. is_text managed_comment (Json.get "comment" r)) (entries j))

  unfoldable pub list_a_records : Exec A.State (List Json)
  list_a_records =
      request A account
        (fetch A account (dns_records zone_id) (("type", text "A") ∷ ("per_page", num 1000) ∷ []))
      >>= λ j. pure (entries j)

  unfoldable pub set_proxied : Bool → Json → Exec A.State Json
  set_proxied proxied r = lift (Json.item "id" r) >>= λ id. request A account (record {
    verb = Verb.patch;
    path = dns_record zone_id id;
    params = null;
    payload = object (("proxied", flag proxied) ∷ []);
  })

  unfoldable pub delete_dns_record : Json → Exec A.State (Unit {0})
  delete_dns_record record_id =
      request A account (record {
        verb = Verb.delete;
        path = dns_record zone_id record_id;
        params = null;
        payload = null;
      })
      >> pure tt

  -- `record.get("name", record["id"])`: the name, or else the id; the id must be there in any case.
  unfoldable pub label_of : Json → Json
  label_of r = if Json.has_key "name" r then Json.get "name" r else Json.get "id" r

  unfoldable pub reconcile_each : String → Bool → List Json → Exec A.State (List Json)
  reconcile_each ip proxied [] = pure []
  reconcile_each ip proxied (r ∷ rs) =
      if needs_change ip proxied r
      then (do
        set_proxied proxied r
        changed ← reconcile_each ip proxied rs
        pure (label_of r ∷ changed))
      else reconcile_each ip proxied rs

  unfoldable pub reconcile_proxy_status : String → Bool → Exec A.State (List Json)
  reconcile_proxy_status ip proxied = list_a_records >>= reconcile_each ip proxied
