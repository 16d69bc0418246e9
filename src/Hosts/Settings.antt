-- ===== src/Hosts/Settings.antt =====
-- `get_setting` and `set_setting` of services/hosts.py, and the names of the settings that the
-- certificates use.
use edgekit.Base.{arith, str_eq, if◌then◌else◌, ◌≡◌, none, some, String, Option}
use edgekit.Models.{Database}
use edgekit.Base.Dict

abbrev pub setting_cert_id : String
setting_cert_id = "npm_certificate_id"

abbrev pub setting_cert_name : String
setting_cert_name = "npm_certificate_name"

abbrev pub setting_cert_expiry : String
setting_cert_expiry = "npm_certificate_expiry"

abbrev pub setting_cert_fingerprint : String
setting_cert_fingerprint = "npm_certificate_fingerprint"

abbrev pub setting_cert_kind : String
setting_cert_kind = "npm_certificate_kind"

abbrev pub setting_or_empty : Option String → String
setting_or_empty none = ""
setting_or_empty (some v) = v

-- `get_setting(session, key)`
unfoldable pub get_setting : String → Database → String
get_setting key db = setting_or_empty (Dict.lookup key db.settings)

unfoldable pub set_setting : String → String → Database → Database
set_setting key value db = record db { settings = Dict.insert key value db.settings }

-- What is set is read; the other settings stay.
pub get_setting-set_setting :
    (key k value : String) (db : Database)
    → get_setting key (set_setting k value db)
      ≡ (if str_eq k key then value else get_setting key db)
unfolding get_setting set_setting
get_setting-set_setting key k value db = rw Dict.lookup-insert (ground arith)
