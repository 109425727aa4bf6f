-- ===== src/Handler/Refusals/Routes.antt =====
-- The routes of go/internal/pionserver/handler.go on their error paths.
