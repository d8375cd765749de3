-- ===== src/Tests/Injection.antt =====
-- The containers and the volumes that are added to a concrete pod.
use mathlib.Core.List.{Memᴰ}
use vault_secrets_webhook.Base.{◌≡◌, ◌↔◌, refl, true, none, List, [], ◌∷◌, lookup, ok, err, All}
use vault_secrets_webhook.Base.Text.Split.{lacks_char}
use vault_secrets_webhook.Config.{VaultConfig}
use vault_secrets_webhook.Kube.{Container, volume_mount, has_volume, panic}
use vault_secrets_webhook.Pod.Inject.{container_mounts}
use vault_secrets_webhook.Pod.Inject.Volumes.{Provided, vault_agent_init-agent_secrets}
use vault_secrets_webhook.Pod.Sidecars.{
  copy_vault_token, get_init_containers, vault_agent_init, copy_vault_env,
}
use vault_secrets_webhook.Pod.Sidecars.Confined.{AddedConfined, get_init_containers-IsConfined}
use vault_secrets_webhook.Pod.Sidecars.Token.{colon, copy_vault_token-eq-err_iff}
use vault_secrets_webhook.Tests.Data.{pod_config, test_container}

-- The options of an object with the Vault Agent, and with the agent's config map named.
abbrev with_agent : VaultConfig
with_agent = record pod_config { template = record pod_config.template { use_agent = true } }

-- The options of an object that names a mounted token.
abbrev with_mount : VaultConfig
with_mount = record pod_config {
  agent = record pod_config.agent { token_auth_mount = "token:value" };
}

abbrev added : List Container
added =
    vault_agent_init (test_container ∷ []) none with_agent [] []
    ∷ copy_vault_env none with_agent
    ∷ []

two_added : get_init_containers (test_container ∷ []) none with_agent true [] [] ≡ ok added
unfolding get_init_containers lookup
two_added = refl

get_init_containers-IsConfined_example : All (AddedConfined none with_agent) added
get_init_containers-IsConfined_example =
    get_init_containers-IsConfined none with_agent (test_container ∷ []) true [] [] added two_added

copy_vault_token-eq-err_iff_example :
    (copy_vault_token none with_mount ≡ err (panic "index out of range"))
    ↔ (lacks_char colon with_mount.token_auth_mount ≡ true)
copy_vault_token-eq-err_iff_example = copy_vault_token-eq-err_iff none with_mount

vault_agent_init-agent_secrets_example :
    Memᴰ
      (volume_mount "agent-secrets" with_agent.configfile_path)
      (vault_agent_init [] none with_agent [] (container_mounts with_agent [])).volume_mounts
    × (Provided [] "web" with_agent "agent-secrets" ↔ (has_volume "agent-secrets" [] ≡ true))
unfolding lookup
vault_agent_init-agent_secrets_example =
    vault_agent_init-agent_secrets [] "web" with_agent [] none [] refl refl
