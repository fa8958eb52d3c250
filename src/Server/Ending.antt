-- ===== src/Server/Ending.antt =====
-- Shutting a server down (server/server.go, Shutdown).
use less.Base.{◌≡◌}
use less.Pipeline.{Pipeline}
use less.Channel.{Channel}
use less.Trans.{closed}
use less.Trans.Goroutines.{World}
use less.Server.{Server}

IsClosed : World → Type 0
IsClosed w = w.handler.status ≡ closed
