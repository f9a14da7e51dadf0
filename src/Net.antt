-- ===== src/Net.antt =====
-- The sockets' bookkeeping of net/.
pub mod UdpPortAllocator
