-- ===== src/Solver.antt =====
-- agent/solver.py: netting under credit limits. PuLP and its CBC solver are the parameter of `Lp`.
pub mod Model
pub mod Lp
pub mod OneCurrency
pub mod Book
pub mod Maximal
pub mod Fx
