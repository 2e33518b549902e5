-- ===== src/Reconciler/Retries.antt =====
-- reconciler.rs: the retries of one row of `xorbs` while the adapter refuses for good.
