-- ===== src/Lane.antt =====
-- A bounded tokio mpsc channel as one sender sees it. What other senders and the receiver do between
-- two calls is part of `Chan`; `accepted` lists what the channel took from this sender, in order.
mod Interface
pub mod Receiver
pub mod Sample
pub use Interface.*
