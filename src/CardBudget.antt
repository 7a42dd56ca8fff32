-- ===== src/CardBudget.antt =====
-- The budgets of static cards, src/card/card-budget.ts and src/card/text-truncate.ts.
pub mod Tables
pub mod Nodes
pub mod TableCap
pub mod Budget
pub mod Enforce
pub mod Accounted
pub mod Laws
pub mod Untouched
pub mod Reported
mod Tests
