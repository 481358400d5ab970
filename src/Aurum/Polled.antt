-- ===== src/Aurum/Polled.antt =====
-- How often the polled reads of api/aurum.py are audited.
