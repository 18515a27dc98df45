-- ===== src/Tests.antt =====
-- Runs of the model on concrete inputs, and the theorems at inputs that meet their hypotheses.
mod Wire
mod Data
mod Channel
mod Connect
mod Command
mod Payload
mod Service
mod Stream
mod Helper
mod P2p
mod Bridge
mod App
