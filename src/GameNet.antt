-- ===== src/GameNet.antt =====
-- The network protocol of src/game_net.c: State is struct game_state on the wire and
-- reset_game_net, Receive is HandleUdpGameNet, and Send is send_game_state.
pub mod State
pub mod Receive
pub mod Send
pub mod Wire
pub mod Frames
pub mod Sending
pub mod Delivery
pub mod Handshake
pub mod Session
