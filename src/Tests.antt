-- ===== src/Tests.antt =====
-- Values for the parameters of the model, and the theorems at concrete inputs.
mod Ascii
mod Networks
mod Streams
mod Bodies
mod Sessions
mod Channels
mod Watches
mod Parser
mod Receptions
mod Creations
mod Blocks
mod Starts
