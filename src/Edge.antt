-- ===== src/Edge.antt =====
-- services/edge/src: the request edge in front of the sprouts.
pub mod Cache
pub mod WebSocket
