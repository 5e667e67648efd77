-- ===== src/Rpc.antt =====
-- The channels, servers and sockets of the test applications: framework/rpc/grpc_channelz.py and
-- framework/test_app.
pub mod Channelz
pub mod Client
pub mod Server
mod Samples
