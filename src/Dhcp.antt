-- ===== src/Dhcp.antt =====
-- The DHCP client of src/networking.c: Client is _process_dhcp and _begin_dhcp, and Reply is
-- _HandleDhcp and the changes of the link. The functions without the underscore only take and give
-- back the semaphore around these.
pub mod Client
pub mod Reply
pub mod OptionLoop
pub mod OptionCodec
