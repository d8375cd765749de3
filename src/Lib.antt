-- ===== src/Lib.antt =====
-- The vault-secrets-webhook: a Kubernetes admission webhook that lets pods read their secrets from
-- Vault. main.go serves it and its metrics. An admission request reaches pkg/webhook, which parses the
-- object's annotations against the operator's settings (config.go), checks an address that the object
-- names (pkg/common), and mutates the object. A pod's containers that refer to Vault run under
-- vault-env, and init containers, side containers, volumes and a config map are added beside them
-- (pod.go). Secrets, config maps and other objects get the values themselves, by a client of Vault that
-- is made for the request (newVaultClient).
--
-- Which file models which part:
--   Base                 lists, results, maps, actions over a state that may fail, and Go's text
--                        functions, as far as they are used
--   Common               pkg/common: common.go (has_vault_prefix, Annotations), policy.go (Policy),
--                        addr.go (Addr, with the tests on IP addresses in Addr/Ip, and net.ParseIP
--                        of IPv4 addresses in Addr/ParseIp)
--   Config               pkg/webhook/config.go: VaultConfig; Parse has parseVaultConfig, one function
--                        for each group of fields, and vaultAddrPolicy of webhook.go; Defaults has
--                        the table of SetConfigDefaults
--   Kube                 the API objects, the cluster and the image registry behind interfaces
--   Metrics              pkg/webhook/client_metrics.go: the collectors, RegisterMetrics, the round
--                        tripper that counts errors (Transport) and mapErrorToLabel
--   Logging              pkg/webhook/client_logger.go (Client) and webhook_logger.go with
--                        ErrorLoggerMutator of webhook.go (Webhook, Reviews); the routers of main.go
--                        and registry.go (Routes)
--   Client               pkg/webhook/webhook.go: newVaultClient, one function for each of its steps
--   Pod/Lookup           pkg/webhook/webhook.go: lookForEnvFrom and lookForValueFrom
--   Pod/Containers       pkg/webhook/pod.go: mutateContainers
--   Pod/Inject, Sidecars pkg/webhook/pod.go: getVolumes, the security context, and the containers
--                        and the config map that are added
--   Pod/Mutate           pkg/webhook/pod.go: MutatePod
--   Registry             pkg/webhook/registry.go: GetImageConfig and its cache, which fills the
--                        interface Kube.ImageRegistry; Registry/Download has getImageConfig, which
--                        fills the interface Registry.Remote
--   Injector             the secret injector of the SDK, as the three files below use it
--   Object               pkg/webhook/object.go: traverseObject and MutateObject
--   Secret               pkg/webhook/secret.go: MutateSecret
--   ConfigMaps           pkg/webhook/configmap.go: MutateConfigMap
--   Certificate          tlscertificate.go: the reloading of the server's certificate, as a step
--                        relation over the files and the notifications
--   Webhook              pkg/webhook/webhook.go: VaultSecretsMutator, which puts the parts together,
--                        over the clients of Client in Webhook/Connected
--   Server               main.go, with NewMutatingWebhook and ServeMetrics of pkg/webhook/webhook.go
--   Tests                the theorems at concrete inputs
--
-- State. MutatePod takes the cluster and the registry's cache and gives them back beside its result;
-- the pod is a value. newVaultClient takes the cluster and its two counters, and getImageConfig the
-- network. The cluster is any type with the requests that the webhook makes (Kube.Kube), the registry
-- any type with GetImageConfig (Kube.ImageRegistry), so the theorems hold for every behaviour of the
-- two, failures included. An error is a value, and so is a panic of the Go code: an index out of range
-- and a nil pointer are the error `panic`. The caller drops a pod that comes with an error, so what a
-- failing call has changed in it is not kept.
--
-- Parameters. url.Parse, the reading of IPv6 addresses in net.ParseIP and unicode.ToLower beyond ASCII
-- (Common.Addr.Net), the operator's settings (Common.Policy.Viper), time.ParseDuration and
-- resource.ParseQuantity (Config.Parse.Parsers), HasInlineVaultDelimiters, Duration.String,
-- json.Unmarshal and the comparison of versions (Pod.Mutate.Runtime), the SDK's injector and its client
-- (Injector.Sdk), base64 and the JSON of Docker's credentials (Secret.Codec), the Vault client's
-- configuration and constructor (Client.ClientApi), Prometheus's registry (Metrics.Registerer), the
-- requests of k8schain and go-containerregistry (Registry.Download.Registries), slog's
-- Level.UnmarshalText and slogmulti's router (arguments of Logging.Routes), kubewebhook's handlers, the
-- system and the sockets (Server.Host), text/template (an argument of Webhook) and tls.LoadX509KeyPair
-- (Certificate.KeyPairs) are arguments: their code is not in the repository. The functions of Go's
-- strings and strconv are written out in Base. Some theorems assume something of a parameter, which
-- their entries say: that Vault answers with the key asked for, that viper answers with the defaults,
-- that ConfigureTLS keeps the address, and that decoding base64 inverts encoding it.
--
-- Bounds. All loops are structural recursions over lists and texts. The one fuel is that of itoa: 20
-- digits, where an int has at most 19. Maps are visited in the order of their entries; Go's order is
-- unspecified, and every order of the entries is a list of them. Quantities are kept as their texts.
--
-- Not modelled: the messages that are logged inside the mutations, the errors of the certificate's
-- watcher, which are only logged, the instruments of promhttp around the client's transport, and the
-- run of the metrics' server beside the main one, which ends the program when it fails.
pub mod Base
pub mod Common
pub mod Config
pub mod Kube
pub mod Metrics
pub mod Logging
pub mod Client
pub mod Injector
pub mod Pod
pub mod Registry
pub mod Object
pub mod Secret
pub mod ConfigMaps
pub mod Certificate
pub mod Webhook
pub mod Server
pub mod Tests
