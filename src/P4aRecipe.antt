-- ===== src/P4aRecipe.antt =====
-- etroute_p4a.py: the planner of private recipes for python-for-android.
pub mod Kinds
pub mod Classifier
pub mod Planner
pub mod Generator
pub mod Backend
