-- ===== src/Examples.antt =====
-- Tests on concrete inputs, and the theorems applied to such inputs.
mod Store
mod Bus
mod Power
mod Hub
mod Datagrams
mod Boot
mod Query
mod Clock
mod Poll
mod Bookends
mod Creds
mod Dump
mod Vectors
mod Ring
mod Trips
mod Records
