-- ===== src/AppMain.antt =====
-- main/app_main.c: the program that supervises the components.
pub mod Services
pub mod Session
pub mod Connected
pub mod Rejections
pub mod Network
pub mod Supervisor
pub mod Waits
pub mod Kept
pub mod Deliveries
pub mod Guarded
pub mod Iterations
pub mod Counting
pub mod Reset
pub mod Cleared
mod MockBoard
mod MockDir
mod Tests
