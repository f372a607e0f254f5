-- ===== src/Container.antt =====
-- The container package: a running container's lifecycle, container/container*.go,
-- container/lifecycle.*.go and container/testing.go.
pub mod Cleanup
pub mod Operations
pub mod Durable
pub mod Ports
pub mod Host
pub mod Files
pub mod Endpoints
pub mod Create
pub mod Definition
