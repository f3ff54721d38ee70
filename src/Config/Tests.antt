-- ===== src/Config/Tests.antt =====
-- Runs of the settings, and the theorems at concrete inputs.
use sui_ctf_infrastructure.Base.{if◌then◌else◌, pos, ◌≡◌, refl, none, some, [], ◌∷◌}
use sui_ctf_infrastructure.Text.{codes, text_discrete, text_eq, strip, split}
use sui_ctf_infrastructure.Text.Numbers.{int_of_text, text_of_int}
use sui_ctf_infrastructure.Config.{
  Environ, env_text, env_int, env_str, Config, config_of, dns_list, rpc_url_for,
}

abbrev some_environ : Environ
some_environ name =
    if text_eq name (codes "PROXY_PORT")
    then some (codes "9090\n")
    else if text_eq name (codes "NC_PORT")
    then some (codes "many")
    else if text_eq name (codes "INSTANCE_DNS")
    then some (codes " 8.8.8.8 , ,1.1.1.1")
    else none

abbrev settings : Config
settings = config_of some_environ

proxy-port : settings.public_proxy_port ≡ pos 9090
unfolding config_of env_int env_text int_of_text text_discrete
proxy-port = refl

nc-port : settings.nc_port ≡ pos 1337
unfolding config_of env_int env_text int_of_text text_discrete
nc-port = refl

dns : dns_list settings ≡ codes "8.8.8.8" ∷ codes "1.1.1.1" ∷ []
unfolding config_of dns_list split strip env_str env_text text_discrete
dns = refl

url : rpc_url_for settings (codes "u1") ≡ codes "http://localhost:9090/u1"
unfolding config_of rpc_url_for text_of_int env_int env_str env_text int_of_text text_discrete
url = refl
