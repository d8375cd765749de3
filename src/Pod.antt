-- ===== src/Pod.antt =====
-- pkg/webhook/pod.go: the mutation of pods.
pub mod Lookup
pub mod Containers
pub mod Inject
pub mod Sidecars
pub mod Mutate
