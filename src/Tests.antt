-- ===== src/Tests.antt =====
-- Concrete platforms and packages, and the theorems at them.
mod Codec
mod Json
mod Toy
mod Sealing
mod Witnesses
mod Checkout
mod Keywrap
mod Opening
mod Recovering
mod Outcomes
mod Authority
mod Remote
mod Deployed
mod Shelled
mod Commands
mod Logging
mod Served
