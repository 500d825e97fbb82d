-- ===== src/Rules.antt =====
-- internal/rules: the three fraud rules, each a pure decision. `Rules.Velocity`,
-- `Rules.ImpossibleTravel` and `Rules.Irsf` are the three files, `Rules.Verdicts` has the theorems.
pub mod Verdict
pub mod Velocity
pub mod ImpossibleTravel
pub mod Irsf
pub mod Verdicts
