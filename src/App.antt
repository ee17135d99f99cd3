-- ===== src/App.antt =====
-- app/src: the program's own windows, and the loop that draws them with Vulkan. What SDL, Vulkan and the
-- drawing library report in a frame is a record of those results.
pub mod Application
pub mod Vulkan
pub mod Devices
pub mod Machine
pub mod Setup
pub mod Resources
pub mod Posts
pub mod Lifetime
pub mod Safety
pub mod Presented
pub mod Stopping
mod Machines
mod Tests
