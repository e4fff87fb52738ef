-- ===== src/Examples.antt =====
-- Runs of the modelled code on concrete inputs, and the theorems at them.
mod Money
mod Queue
mod Sending
mod Chain
mod Alerts
mod Sockets
mod Feeds
mod Access
mod Markets
