-- ===== src/Lib.antt =====
-- edgekit turns a server into an edge: a WireGuard hub whose peers serve behind Nginx Proxy Manager,
-- with DNS at Cloudflare, a firewall, certificates and a web panel. This library models its core.
--
-- The parts, with the Python files that they translate:
--   Base       what the models share: tests on numbers and texts, lists, dicts, JSON, and
--              `Exec`, an action on a state that returns or raises. What was changed before an
--              exception stays changed. Base/Triples has the rules to reason about such actions:
--              `Triple P m Q R` says that from a state with P, m returns with Q or raises with R.
--   Npm        src/edgekit/services/npm.py. Npm/Client has the client's state (email, password and
--              token), `_login`, `_request` and the waiting loops; Npm/Hosts and Npm/Certificates the
--              calls for proxy hosts and custom certificates; Npm/Letsencrypt those of a DNS challenge;
--              Npm/Bootstrap `create_initial_user` and `bootstrap_admin`. Npm/Laws has what is relied on of the server.
--   Cloudflare src/edgekit/services/cloudflare.py: requests, DNS records, permissions, TLS mode.
--   Security   src/edgekit/security.py: password policy and login throttle.
--   System     Shell is src/edgekit/system/shell.py, Docker src/edgekit/system/dockerx.py, Wireguard
--              and Apply src/edgekit/system/wireguard.py; Apply has the calls of docker compose too.
--              Packages is src/edgekit/system/packages.py: Apt the lock and apt, Install what is installed.
--   Models     src/edgekit/models.py, the rows of the database.
--   Peers      src/edgekit/services/peers.py.
--   Hosts      src/edgekit/services/hosts.py. It reads the rows, and calls Npm, Docker and DNS;
--              Hosts/Settings has the named settings, which Certificates writes.
--   Certificates  src/edgekit/services/certificates.py: Names has what is read of names and pairs,
--              Install what every flow does with the proxy manager and the settings, Flows the three
--              flows. They call Npm and Cloudflare.
--   Firewall   src/edgekit/system/firewall.py: Bridges has the Docker bridges, Rules the three rules
--              and the script, Ufw what is read of `ufw status`, Enable and Remove the changes.
--              Iptables and Safe have what is relied on of iptables and ufw.
--   Jobs       src/edgekit/jobs.py; Jobs/Marker has the line that the script of a job appends.
--   Health     `assess_public` of src/edgekit/services/health.py. What a probe sees is a parameter.
--   Provision  src/edgekit/services/provision.py: the runner, with its steps as a parameter, and in
--              Provision/Verify the step that verifies HTTPS, by the judgements of Health. Steps has
--              those that put System, Firewall, Cloudflare and Certificates together, Address
--              the search for the public address.
--   Tests      runs at concrete inputs, and instances of what is relied on of the other programs.
--
-- Outside the program, and therefore parameters: the proxy manager (`Server`), the programs and files
-- of the host (`Host`, whose writes may fail), Python's `ipaddress` (`Addresses`), `json.loads`, `isdigit`
-- and `int` beyond ASCII (`Unicode`), what is read in PEM texts (`Pem`), the keys that the database
-- gives to new rows and the order of its answers, and the API of Cloudflare (`Api`). Hosts takes the
-- two calls of the Cloudflare client that it makes as an interface, `Dns`.
-- What a result relies on of these is a record of laws: IsNpm of the proxy manager, Refuses of the
-- API of Cloudflare, IsIptables and IsUfw of the host, Ticks and IsWeb of its clocks.
--
-- Loops over lists are structural, and the waiting loops recur on the number of rounds that are left,
-- which the source passes as `attempts`. The loop that removes a rule of iptables has no bound in the
-- source; it recurs on fuel, and more fuel than there are copies of the rule is enough.
-- The waits of apt and of the HTTPS check recur on fuel too, and more than the seconds that they wait
-- is enough. Numbers that cannot be
-- negative (ids, ports, statuses, counts) are native numbers, and times are microseconds. A session
-- is the database as the session sees it: an attribute of a row counts from its assignment on.
--
-- Not modelled: rendering of configurations and of QR codes, hashes and signed sessions (calls of
-- other packages), log messages, the texts of exceptions; and so far the
-- other steps of provisioning and health checks, the command line and the web panel.
pub mod Base
pub mod Npm
pub mod Security
pub mod System
pub mod Models
pub mod Peers
pub mod Hosts
pub mod Cloudflare
pub mod Certificates
pub mod Firewall
pub mod Health
pub mod Jobs
pub mod Provision
pub mod Tests
