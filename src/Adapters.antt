-- ===== src/Adapters.antt =====
-- adapters: the checks that stand between untrusted input and the program.
pub mod JsonScan
