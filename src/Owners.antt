-- ===== src/Owners.antt =====
-- The packet buffers through the handlers of src/networking.c, src/game_net.c and src/logging.c.
pub mod Senders
pub mod Client
pub mod Frames
pub mod Serves
pub mod Entries
pub mod NetStack
