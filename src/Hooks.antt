-- ===== src/Hooks.antt =====
-- The hooks of src/game_net.c around the game's own functions. These are given: a hook takes the
-- game's function that it calls as an argument.
pub mod Pads
pub mod Status
pub mod Loading
pub mod Laws
