-- ===== src/Workers.antt =====
-- The background workers that the scheduler ticks: backend/app/workers/holds.py and overdue.py. A run
-- reads the clock once and is one transaction.
pub mod Holds
pub mod Overdue
