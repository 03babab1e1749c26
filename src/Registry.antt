-- ===== src/Registry.antt =====
-- registry/registry_http.go: the manifests of a registry are asked for over HTTP, with a token
-- where the registry wants one, for an image's digest or the registry's pull quota.
pub mod Trim
pub mod Challenge
pub mod RateLimit
pub mod Fetch
pub mod Printing
pub mod RoundTrip
pub mod Quota
pub mod Exchange
pub mod Served
pub mod Bounds
