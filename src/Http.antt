-- ===== src/Http.antt =====
-- pkg/http: the callback server for the job pods.
pub mod Event
pub mod Web
pub mod Posts
pub mod Routes
pub mod Server
