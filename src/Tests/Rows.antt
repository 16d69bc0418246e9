-- ===== src/Tests/Rows.antt =====
-- The theorems on peers and proxy hosts at concrete rows.
use edgekit.Base.{◌⊎◌, refl, arith, false, ◌≡◌, none, [], ◌∷◌, true, some, pure, After}
use edgekit.Peers.Rotate.{rotate_keys-Replaced, Replaced, Rekeyed, Rotated}
use edgekit.Peers.Delete.{delete-Removed, Removed}
use edgekit.Peers.Create.{create-Added, Added}
use edgekit.Tests.FakeHost.{next_id-fresh, next_id, quiet}
use edgekit.Hosts.Rows.{push-Pushed, Pushed}
use edgekit.Tests.Addressing.{tally-injective, small_network, tallies, tally}
use edgekit.Hosts.Service.{push, Env, Dns}
use edgekit.Hosts.Attached.{attach_certificate-Attached, Attached}
use edgekit.Tests.FakeNpm.{fake}
use edgekit.Hosts.Resync.{attach_certificate}
use edgekit.Peers.Service.{NewPeer}
use edgekit.Models.{ProxyHost, Peer, Database}
use edgekit.Peers
use edgekit.Hosts

abbrev laptop : Peer
laptop = record {
  id = 1;
  name = "laptop";
  description = "";
  address = tally 2;
  public_key = "K1";
  private_key = none;
  preshared_key = none;
  extra_allowed_ips = "";
  keepalive = 25;
  enabled = true;
}

abbrev nas : Peer
nas = record {
  id = 2;
  name = "nas";
  description = "";
  address = tally 3;
  public_key = "K2";
  private_key = none;
  preshared_key = none;
  extra_allowed_ips = "";
  keepalive = 25;
  enabled = true;
}

abbrev shop : ProxyHost
shop = record {
  id = 7;
  domain = "shop.example.com";
  peer_id = some 1;
  forward_host = tally 2;
  forward_port = 8080;
  scheme = "http";
  force_ssl = true;
  http2 = true;
  websockets = true;
  block_exploits = true;
  npm_host_id = some 1;
  npm_certificate_id = some 1;
  cloudflare_record_id = none;
}

abbrev rows : Database
rows = record {
  peers = laptop ∷ nas ∷ [];
  hosts = shop ∷ [];
  settings = ("npm_certificate_id", "4") ∷ [];
  audit = [];
}

abbrev small_world : Peers.Service.World quiet tallies small_network next_id
small_world = record { db = rows; host = 0 }

abbrev phone : NewPeer
phone = record {
  name = "phone";
  description = "";
  address = "";
  public_key = "";
  extra_allowed_ips = "";
  keepalive = 25;
  use_preshared_key = true;
  actor = "admin";
}

create-Added_example :
    After
      (Added quiet tallies tally-injective small_network next_id (omega arith) next_id-fresh rows)
      (λ e s. s.db ≡ rows)
      (Peers.Service.create quiet tallies small_network next_id phone small_world)
create-Added_example =
    (create-Added quiet tallies tally-injective small_network next_id (omega arith) next_id-fresh
        rows phone).at
      small_world refl

delete-Removed_example :
    After
      (λ _. Removed quiet tallies small_network next_id rows 2)
      (λ e s. s.db ≡ rows)
      (Peers.Service.delete quiet tallies small_network next_id 2 "admin" small_world)
delete-Removed_example =
    (delete-Removed quiet tallies small_network next_id rows 2 "admin").at small_world refl

abbrev still_zone : Dns
still_zone = record {
  State = Unit;
  upsert_a_record = λ domain. pure (some "r1");
  delete_dns_record = λ id. pure tt;
}

abbrev small_env : Env
small_env = record {
  config = record {
    dns_configured = true;
    admin_email = "ops@example.com";
    admin_password = "correct horse";
    container_name = "npm";
  };
  server = fake;
  dns = still_zone;
  host = quiet;
  loads = λ t. none;
  lower = λ c. "";
  new_id = next_id;
  unicode = record { other_isdigit = λ p. false; other_int = λ p. none };
  by_domain = λ hs. hs;
}

abbrev edge : Hosts.Service.World small_env
edge = record {
  db = rows;
  link = record {
    client = record { email = ""; password = ""; token = none };
    server = record { hosts = (1, 1) ∷ []; next = 5; gone = λ n. false };
  };
  zone = tt;
  host = 0;
}

attach_certificate-Attached_example :
    After (λ _. Attached small_env) (λ e _. Unit {0}) (attach_certificate small_env edge)
attach_certificate-Attached_example =
    (attach_certificate-Attached small_env (λ hs id. refl)).at edge tt

push-Pushed_example :
    After (λ _. Pushed small_env rows 7) (λ e w. w.db ≡ rows) (push small_env false shop edge)
push-Pushed_example = (push-Pushed small_env rows shop).at edge refl

rotate_keys-Replaced_example :
    After
      (λ q s.
        (q.id ≡ 2)
        × Rotated quiet tallies small_network next_id rows 2 q
        × Replaced quiet tallies small_network next_id rows q s)
      (λ e s. (s.db ≡ rows) ⊎ Rekeyed quiet tallies small_network next_id rows 2 s)
      (Peers.Service.rotate_keys quiet tallies small_network next_id 2 "admin" small_world)
rotate_keys-Replaced_example =
    (rotate_keys-Replaced quiet tallies small_network next_id rows 2 "admin").at small_world refl
