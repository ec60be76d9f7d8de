-- ===== src/State.antt =====
-- What stays true of the globals of src/networking.c and src/game_net.c in every run.
pub mod Keeps
pub mod Client
pub mod Game
pub mod Run
pub mod Exchange
