-- ===== src/As3.antt =====
-- Package pkg/as3: the declarations that the controller sends to BIG-IP.
pub mod Types
pub mod Config
pub mod Attrs
pub mod Resource
pub mod Environment
pub mod Rules
pub mod Firewall
pub mod Services
pub mod Tenant
pub mod Declaration
pub mod Closed
pub mod Merge
pub mod Client
pub mod Patch
pub mod Init
pub mod Request
pub mod Frequency
mod Tests
