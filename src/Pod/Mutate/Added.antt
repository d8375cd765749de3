-- ===== src/Pod/Mutate/Added.antt =====
-- pkg/webhook/pod.go: the consul-template and agent containers that MutatePod adds.
use vault_secrets_webhook.Base.{String, inr, Bool, Option, none, List, [], All}
use vault_secrets_webhook.Config.{VaultConfig}
use vault_secrets_webhook.Kube.{EnvVar, VolumeMount, Container, PodSecurityContext}
use vault_secrets_webhook.Pod.Sidecars.{get_containers, get_agent_containers}
use vault_secrets_webhook.Pod.Sidecars.Confined.{sidecars-IsConfined}
use vault_secrets_webhook.Pod.Mutate.Origin.{
  IsAccounted, share-IsPermitted, agent_share-IsPermitted,
}

module _ (c : VaultConfig) where
  -- The options once it is decided whether the processes share a namespace.
  abbrev pub with_template : Bool → VaultConfig
  with_template share = record c { template = record c.template { ct_share_process = share } }

  abbrev pub with_agent : Bool → VaultConfig
  with_agent share = record c { agent = record c.agent { agent_share_process = share } }

  module _ (context : Option PodSecurityContext) (originals : List Container) (env : List EnvVar)
      (mounts : List VolumeMount) where
    pub template-IsAccounted :
        (share : Bool)
        → All
            (IsAccounted c context originals)
            (get_containers context (with_template share) env mounts)
    unfolding get_containers
    template-IsAccounted share =
        let (((own, e, k), _), _) =
          sidecars-IsConfined context (with_template share) (λ _. none) [] env mounts in
        (
          inr (
            _,
            share-IsPermitted c context originals share,
            (
              own,
              e,
              record {
                drops_all = k.drops_all;
                adds = k.adds;
                user = k.user;
                group = k.group;
                non_root = k.non_root;
                escalation = k.escalation;
                root_filesystem = k.root_filesystem;
              },
            ),
          ),
          tt,
        )

    pub agent-IsAccounted :
        (unmarshal : String → Option (List EnvVar)) (containers : List Container) (share : Bool)
        → All
            (IsAccounted c context originals)
            (get_agent_containers unmarshal containers context (with_agent share) env mounts)
    unfolding get_agent_containers
    agent-IsAccounted unmarshal containers share =
        let (_, ((own, e, k), _)) =
          sidecars-IsConfined context (with_agent share) unmarshal containers env mounts in
        (
          inr (
            _,
            agent_share-IsPermitted c context originals share,
            (
              own,
              e,
              record {
                drops_all = k.drops_all;
                adds = k.adds;
                user = k.user;
                group = k.group;
                non_root = k.non_root;
                escalation = k.escalation;
                root_filesystem = k.root_filesystem;
              },
            ),
          ),
          tt,
        )
