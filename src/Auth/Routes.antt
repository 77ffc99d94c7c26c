-- ===== src/Auth/Routes.antt =====
-- apps/api/src/modules/auth/auth.routes.ts, and the guards of auth.request.ts and auth.cookies.ts. What
-- Fastify and zod give is in the request: the cookies and headers by value, and the parsed body, if it
-- is valid. The state is the database and the five limiters.
mod Guards
mod Handlers
unfoldable pub use Guards.*
unfoldable pub use Handlers.*
