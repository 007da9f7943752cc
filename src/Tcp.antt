-- ===== src/Tcp.antt =====
-- The custom sender and receiver over TCP, of sender_receiver/.
pub mod Options
pub mod CommandLine
pub mod Commands
pub mod Sending
pub mod Receiving
pub mod RoundTrip
pub mod Listening
pub mod FromTrace
