-- ===== src/Dbus.antt =====
-- The D-Bus plugin, plugins/dbus: what it computes without the bus.
pub mod Signature
pub mod Generate
