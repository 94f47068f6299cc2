-- ===== src/Tunnel/Backoff.antt =====
-- The delays between the attempts of the tunnel (`retry_delay` of hermes_a2a_gateway/ssh_tunnel.py).
