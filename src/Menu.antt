-- ===== src/Menu.antt =====
-- The multiplayer menu of src/multi_menu.c: Data is its state, Follow what it takes over from the
-- remote player, Screens the screens that the code adds, and Handle the hook around them.
pub mod Data
pub mod Follow
pub mod Screens
pub mod Handle
pub mod Laws
pub mod Digits
