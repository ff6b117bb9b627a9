-- ===== src/App/Signup.antt =====
-- internal/repository/user_repo.go: whom FindOrCreateUser finds or makes.
use astra_backend.App.{App}
