-- ===== src/Sessions.antt =====
-- Login and sessions (backend/internal/api/auth.go, `withAuth` of backend/internal/api/router.go,
-- backend/internal/security/jwt.go). The password hash, the MAC and the texts of claims are
-- arguments.
pub mod Token
pub mod Handlers
pub mod Verified
pub mod Admitted
pub mod Authorized
