-- ===== src/Podman.antt =====
-- The client of Podman, internal/podman/podman.go, over the runner of internal/process/process.go.
pub mod Machine
pub mod Client
pub mod Holds
