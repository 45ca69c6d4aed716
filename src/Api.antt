-- ===== src/Api.antt =====
-- app/api: what a request of a client passes through, from its token to the answer. The children
-- hold the tokens and the limits (app/api/deps.py), the pipeline of a request and the routes
-- (app/api/firecrawl_v2_compat.py, firecrawl_compat.py, data_plane.py, exa_compat.py). What the
-- routes put on `request.state` for the request log is left out.
pub mod Auth
pub mod Governance
pub mod Governed
pub mod Pipeline
pub mod Leases
pub mod Routes
pub mod Created
pub mod Sticky
