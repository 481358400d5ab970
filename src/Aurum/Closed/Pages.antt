-- ===== src/Aurum/Closed/Pages.antt =====
-- What the pages of closed positions in api/aurum.py show, one after the other.
