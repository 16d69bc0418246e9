-- ===== src/Firewall/Bridges.antt =====
-- The Docker bridge that the rules name: `detect_docker_bridge_subnet` to `detect_proxy_bridge` of
-- system/firewall.py, and the configuration that the module reads.
use edgekit.Base.{
  ◌==◌, code, splitlines, split_by, strip, ◌<>◌, ◌&&◌, map, includes, ◌||◌, not, none, [], ◌∷◌,
  ◌>>=◌, zero, str_eq, some, pure, suc, if◌then◌else◌, List, Exec, String, Option, ℕ,
}
use edgekit.System.Shell.{run, succeeded}
use edgekit.System.Shell.{Host}

pub record Config : Type 0 where
  pub container_name : String
  pub docker_bridge_subnet : String
  pub wg_if : String
  pub wg_subnet : String
  pub listen_port : ℕ
  pub http_port : ℕ
  pub https_port : ℕ
  pub admin_port : ℕ
  pub panel_bind : String
  pub panel_port : ℕ

pub record DockerBridge : Type 0 where
  pub network : String
  pub subnet : String
  pub interface : String

abbrev pub network_format : String
network_format =
    "{{.Name}}|{{.Driver}}|{{if .IPAM.Config}}{{(index .IPAM.Config 0).Subnet}}{{end}}|{{index .Options \"com.docker.network.bridge.name\"}}|{{.Id}}"

-- `s[:n]`
unfoldable pub take_chars : ℕ → String → String
take_chars zero s = ""
take_chars (suc n) String.[] = ""
take_chars (suc n) (String.◌∷◌ c s) = String.◌∷◌ c (take_chars n s)

-- Compose networks carry no explicit name; the kernel calls them br- and twelve digits of the id.
unfoldable pub interface_or_default : String → String → String → String
interface_or_default name interface network_id =
    if str_eq interface "" || str_eq interface "<no value>"
    then (if str_eq name "bridge" then "docker0" else "br-" <> take_chars 12 network_id)
    else interface

-- The five parts of a line of `docker network inspect`; the name is the one that docker printed.
unfoldable pub bridge_of : List String → Option DockerBridge
bridge_of (name ∷ driver ∷ subnet ∷ interface ∷ network_id ∷ []) =
    if not (str_eq driver "bridge") || not (includes "/" subnet)
    then none
    else some (record {
      network = name;
      subnet = subnet;
      interface = interface_or_default name interface network_id;
    })
bridge_of _ = none

abbrev pub or_bridges : Option DockerBridge → List DockerBridge → List DockerBridge
or_bridges none bridges = bridges
or_bridges (some b) bridges = b ∷ bridges

module _ (H : Host) where
  abbrev pub inspect_network : String → String → List String
  inspect_network network format =
      "docker" ∷ "network" ∷ "inspect" ∷ network ∷ "--format" ∷ format ∷ []

  unfoldable pub detect_docker_bridge_subnet : String → Exec H.State String
  detect_docker_bridge_subnet default =
      run H (inspect_network "bridge" "{{(index .IPAM.Config 0).Subnet}}") >>= λ r.
      pure (if succeeded r && includes "/" (strip r.stdout) then strip r.stdout else default)

  unfoldable pub detect_docker_bridge_interface : String → Exec H.State String
  detect_docker_bridge_interface default =
      run H (inspect_network "bridge" "{{index .Options \"com.docker.network.bridge.name\"}}")
      >>= λ r. pure (
          if succeeded r
            && not (str_eq (strip r.stdout) "")
            && not (str_eq (strip r.stdout) "<no value>")
          then strip r.stdout
          else default)

  -- `_inspect_bridge`
  unfoldable pub inspect_bridge : String → Exec H.State (Option DockerBridge)
  inspect_bridge network = run H (inspect_network network network_format) >>= λ r. pure (
      if succeeded r
      then bridge_of (map strip (split_by (λ c. code c == 124) (strip r.stdout)))
      else none)

  unfoldable pub bridges_of : List String → Exec H.State (List DockerBridge)
  bridges_of [] = pure []
  bridges_of (name ∷ names) = do
    bridge ← (if str_eq name "" then pure none else inspect_bridge name)
    bridges ← bridges_of names
    pure (or_bridges bridge bridges)

  unfoldable pub container_bridges : String → Exec H.State (List DockerBridge)
  container_bridges container =
      run H (
        "docker" ∷ "inspect" ∷ container ∷ "--format"
        ∷ "{{range $name, $cfg := .NetworkSettings.Networks}}{{$name}}\n{{end}}" ∷ [])
      >>= λ r. if succeeded r then bridges_of (map strip (splitlines r.stdout)) else pure []

  -- The first bridge of the container, or what is known of the default one.
  unfoldable pub first_or_default : Config → List DockerBridge → Exec H.State DockerBridge
  first_or_default config (b ∷ bs) = pure b
  first_or_default config [] = do
    subnet ← detect_docker_bridge_subnet config.docker_bridge_subnet
    interface ← detect_docker_bridge_interface "docker0"
    pure (record { network = "bridge"; subnet = subnet; interface = interface })

  unfoldable pub detect_proxy_bridge : Config → Exec H.State DockerBridge
  detect_proxy_bridge config = container_bridges config.container_name >>= first_or_default config
