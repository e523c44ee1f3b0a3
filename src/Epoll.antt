-- ===== src/Epoll.antt =====
-- The epoll emulation of dependencies/libs/iland/upstream/shims/epoll/src.
pub mod KQueue
pub mod EventFd
pub mod Timespec
pub mod Timer
pub mod EpollFd
pub mod RwLock
pub mod Shim
