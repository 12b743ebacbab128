-- ===== src/Examples.antt =====
-- The theorems at concrete inputs, with libraries that are small functions.
mod Clipboard
mod Offers
mod Roles
mod Session
mod Audio
mod Keys
mod Noise
mod Notifications
mod Phones
