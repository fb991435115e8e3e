-- ===== src/Users.antt =====
-- backend/internal/users: the panel's end users. `Model` is user.go, `Store` memory_store.go with
-- the errors of store.go, `Service` service.go.
pub mod Model
pub mod Store
pub mod Service
pub mod Validate
pub mod Access
