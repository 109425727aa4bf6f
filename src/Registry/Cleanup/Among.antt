-- ===== src/Registry/Cleanup/Among.antt =====
-- `Cleanup` of registry.go while other calls take `r.mu` between its sections.
use flutter_pion_bridge.Prelude.{ℕ, String, Bool, ◌&&◌, get}
use flutter_pion_bridge.Registry.{Registry}
use flutter_pion_bridge.Registry.Cleanup.{is_expired, is_live_peer_connection}
use flutter_pion_bridge.Registry.Cleanup.Walk.{owner}

-- Expired, but its root is a connected PeerConnection.
abbrev pub alive : (ℕ → Bool) → ℕ → ℕ → Registry → String → Bool
alive connected now max_age r h =
    is_expired now max_age r h && is_live_peer_connection connected (get r.resources (owner r h))
