-- ===== src/Tests/FakeNpm.antt =====
-- A proxy manager with numbered certificates and with hosts that serve with one of them each: an
-- instance of the server that services/npm.py talks to.
use edgekit.Base.{
  inr, sym, Bool-cases, ◌≤◌, All, ◌≢◌, false, arith, inl, ◌⊎◌, zero, subst, refl, ap, ◌∷◌, ◌||◌,
  true, suc, not, ◌≡◌, ◌==◌, ◌&&◌, ok, map, ltb, [], ◌+◌, if◌then◌else◌, any, List, Bool, ℕ,
}
use edgekit.Npm.Laws.{NamesCert, IsNpm, in_use, refers, View, Same}
use edgekit.Npm.Client.{login_request}
use edgekit.Npm.Api.{
  tokens, certificates, proxy_hosts, certificate, proxy_host, empty, certificate_upload, json,
  reply, Reply, Endpoint, Verb, Server,
}
use edgekit.Base.Json.{
  null, obj, text_items, text, cons, nil, flag, arr, object, num, Items, items_of, entries, Json,
}
use edgekit.Npm.Certificates.{certificate_of}
use edgekit.Base.Json

pub record Fake : Type 0 where
  pub hosts : List (ℕ × ℕ)
  pub next : ℕ
  pub gone : ℕ → Bool

unfoldable pub rendered : ℕ × ℕ → Json
rendered (i, c) = object (
    ("id", num i)
    ∷ ("domain_names", arr (text_items ("a.example.com" ∷ [])))
    ∷ ("certificate_id", num c)
    ∷ [])

unfoldable pub items_from : List Json → Items
items_from [] = nil
items_from (x ∷ xs) = cons x (items_from xs)

abbrev cert_record : ℕ → Json
cert_record n = object (("id", num n) ∷ ("nice_name", text "edgekit-origin") ∷ [])

-- The certificates with a number below `n` that are not gone.
unfoldable pub cert_records : (ℕ → Bool) → ℕ → List Json
cert_records gone zero = []
cert_records gone (suc n) =
    let rest = cert_records gone n in if gone n then rest else cert_record n ∷ rest

abbrev pub has : Fake → ℕ → Bool
has t n = ltb n t.next && not (t.gone n)

abbrev moved_host : ℕ → ℕ → ℕ × ℕ → ℕ × ℕ
moved_host i m (j, c) = if j == i then (j, m) else (j, c)

abbrev moved : Json → Json → Fake → Fake
moved (num i) (num m) t = record t { hosts = map (moved_host i m) t.hosts }
moved _ _ t = t

abbrev deleted : Json → Fake → Fake
deleted (num m) t = record t { gone = λ n. t.gone n || n == m }
deleted _ t = t

abbrev created : Fake → Fake
created t = record t { next = t.next + 1; gone = λ n. t.gone n && not (n == t.next) }

unfoldable pub answer : Verb → Endpoint → Json → Fake → Reply × Fake
answer Verb.post tokens p t = (reply 200 (json (object (("token", text "t") ∷ []))), t)
answer Verb.get proxy_hosts p t = (reply 200 (json (arr (items_from (map rendered t.hosts)))), t)
answer Verb.get certificates p t =
    (reply 200 (json (arr (items_from (cert_records t.gone t.next)))), t)
answer Verb.post certificates p t = (reply 201 (json (object (("id", num t.next) ∷ []))), created t)
answer Verb.post (certificate_upload id) p t = (reply 200 empty, t)
answer Verb.put (proxy_host id) p t = (reply 200 empty, moved id (Json.get "certificate_id" p) t)
answer Verb.delete (certificate id) p t = (reply 200 empty, deleted id t)
answer _ _ _ t = (reply 404 empty, t)

abbrev pub fake : Server
fake = record {
  State = Fake;
  send = λ token req t. answer req.verb req.endpoint req.payload t;
  pause = λ t. t;
}

abbrev pub fake_view : View fake
fake_view = record { hosts = λ t. map rendered t.hosts; has_cert = has }

entries-items_from : (l : List Json) → items_of (items_from l) ≡ l
unfolding items_from items_of
entries-items_from [] = refl
entries-items_from (x ∷ xs) = ap (λ r. x ∷ r) (entries-items_from xs)

pub refers-rendered : (n i c : ℕ) → refers n (rendered (i, c)) ≡ (c == n)
unfolding refers rendered certificate_of Json.get Json.truthy Json.int_of Json.object Json.fields
refers-rendered n i zero = refl
refers-rendered n i (suc c) = ground arith

in_use_moved :
    (i m n : ℕ) (hs : List (ℕ × ℕ))
    → any (refers n) (map rendered (map (moved_host i m) hs)) ≡ true
    → (any (refers n) (map rendered hs) ≡ true) ⊎ (n ≡ m)
in_use_moved i m n [] h = inl h
in_use_moved i m n ((j, c) ∷ hs) h =
    ground (arith, refers-rendered n j c, refers-rendered n j m, in_use_moved i m n hs)

in_use_after :
    (id : Json) (m n : ℕ) (t : Fake)
    → in_use fake_view (moved id (num m) t) n ≡ true
    → (in_use fake_view t n ≡ true) ⊎ (n ≡ m)
in_use_after (num i) m n t h = in_use_moved i m n t.hosts h
in_use_after null m n t h = inl h
in_use_after (flag b) m n t h = inl h
in_use_after (text s) m n t h = inl h
in_use_after (arr xs) m n t h = inl h
in_use_after (obj fs) m n t h = inl h

has-moved : (id : Json) (m n : ℕ) (t : Fake) → has (moved id (num m) t) n ≡ has t n
has-moved (num i) m n t = refl
has-moved null m n t = refl
has-moved (flag b) m n t = refl
has-moved (text s) m n t = refl
has-moved (arr xs) m n t = refl
has-moved (obj fs) m n t = refl

same : (t : Fake) → Same fake_view t t
same t = record { hosts = refl; certs = λ n. refl }

listed : (l : List Json) (j : Json) → ok (arr (items_from l)) ≡ ok j → entries j ≡ l
unfolding entries
listed l j e = subst (λ (k : Json). entries k ≡ l) (ok_inj e) (entries-items_from l)
  where
    ok_inj : {x y : Json} → ok x ≡ ok y → x ≡ y
    ok_inj p = cc

fresh_unused : (t : Fake) → has t t.next ≡ false
fresh_unused t = ground arith

fresh_used : (t : Fake) → has (created t) t.next ≡ true
fresh_used t = ground arith

has-created : (t : Fake) (n : ℕ) → has t n ≡ true → has (created t) n ≡ true
has-created t n h = ground arith

has-deleted : (t : Fake) (m n : ℕ) → n ≢ m → has (deleted (num m) t) n ≡ has t n
has-deleted t m n ne = ground arith

new_id :
    (t : Fake) (j : Json)
    → ok (object (("id", num t.next) ∷ [])) ≡ ok j
    → (n : ℕ) × (Json.item "id" j ≡ ok (num n)) × (has t n ≡ false) × (has (created t) n ≡ true)
unfolding Json.item Json.object Json.fields
new_id t j e = (
  t.next,
  subst (λ (k : Json). Json.item "id" k ≡ ok (num t.next)) (ok_inj e) refl,
  fresh_unused t,
  fresh_used t,
)
  where
    ok_inj : {x y : Json} → ok x ≡ ok y → x ≡ y
    ok_inj p = cc

record_id : (n : ℕ) → Json.item "id" (cert_record n) ≡ ok (num n)
unfolding Json.item Json.object Json.fields
record_id n = refl

records_exist :
    (t : Fake) (k : ℕ) → k ≤ t.next → All (NamesCert fake_view t) (cert_records t.gone k)
unfolding cert_records
records_exist t zero h = tt
records_exist t (suc k) h = elim (Bool-cases (t.gone k)) [
  | inl gone ↦ rw gone (records_exist t k (omega arith))
  | inr there ↦ rw there ((k, record_id k, ground arith), records_exist t k (omega arith))
]

listed_exist :
    (t : Fake) (j : Json)
    → ok (arr (items_from (cert_records t.gone t.next))) ≡ ok j
    → All (NamesCert fake_view t) (entries j)
listed_exist t j e =
    subst (All (NamesCert fake_view t)) (sym (listed _ j e)) (records_exist t t.next (omega arith))

pub fake-IsNpm : IsNpm fake_view
unfolding answer login_request Json.get object
fake-IsNpm = record {
  login = λ c token t. same t;
  list_hosts = λ token t. (same t, λ j fine e. listed (map rendered t.hosts) j e);
  list_certificates = λ token t. (same t, λ j fine e. listed_exist t j e);
  upload = λ id cert key token t. same t;
  create_hosts = λ name token t. refl;
  create_certs = λ name token t n h. has-created t n h;
  creates = λ name token t j fine e. new_id t j e;
  move_certs = λ id m token t n. has-moved id m n t;
  move_hosts = λ id m token t n h. in_use_after id m n t h;
  delete_hosts = λ m token t. refl;
  delete_certs = λ m token t n ne. has-deleted t m n ne;
  challenge_hosts = λ c meta token t. refl;
  challenge_certs = λ c meta token t n h. has-created t n h;
  challenge_obtains = λ c meta token t j fine e. let i = new_id t j e in (i.0, i.1, i.3);
}
