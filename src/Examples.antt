-- ===== src/Examples.antt =====
-- Concrete libraries, callers and databases, and the theorems applied to them.
mod Toys
mod Keys
mod Objects
mod Groups
mod Processing
mod Reading
mod Opening
mod Tables
mod Providers
mod Recovery
mod Members
