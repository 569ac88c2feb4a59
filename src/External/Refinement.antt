-- ===== src/External/Refinement.antt =====
-- The Cloudflare client keeps the promises of the manager interface, wherever the API keeps its own.
use cloudflare_tunnel_operat.Base.Exec.{Exec}
use cloudflare_tunnel_operat.External.Zone.{Zone}
