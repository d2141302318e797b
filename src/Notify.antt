-- ===== src/Notify.antt =====
-- notify.system: device registration, message forwarding and the message format of the UDP server.
pub mod Codec
pub mod Hash
pub mod Message
pub mod Registry
pub mod Evp
pub mod Aes
pub mod Rsa
pub mod Load
pub mod Forward
pub mod Ev
pub mod Server
pub mod Client
mod Tests
