-- ===== src/Kube.antt =====
-- The cluster as the controller sees it: objects, the calls made of code outside the repository,
-- and the monad in which the controller's methods are written.
pub mod Objects
pub mod Calls
pub mod Action
pub mod Rules
pub mod Stable
pub mod Traced
pub mod Honest
