-- ===== src/Poller.antt =====
-- litemq/DescriptorHandlerPoller.hpp and .cpp: handlers of descriptors, their holders, the poller
-- over epoll, its cleaner and the pool of pollers. The parts are the modules below.
pub mod Cleaner
pub mod Holder
pub mod Handling
pub mod Stopping
pub mod Pool
mod Examples
