-- ===== src/Notifications.antt =====
-- src/notifications: the tokens that open the receiving end of a subscription.
pub mod Tokens
