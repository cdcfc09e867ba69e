-- ===== src/Generation.antt =====
-- The generation of one segment of a book: app/services/generation/graph.py (the workflow graph
-- and its routes), nodes/*.py (what each node writes to the shared state), policies.py and
-- segment_plan.py. A score, a ratio and a threshold are in ten thousandths; a quotient is kept as
-- a pair, since the source compares its float only with constants.
pub mod Policies
pub mod Plan
pub mod State
pub mod Closure
pub mod Start
pub mod Nodes
pub mod Routes
pub mod Machine
pub mod Pipeline
pub mod Length
