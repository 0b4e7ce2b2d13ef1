-- ===== src/Tests.antt =====
-- Concrete runs of the model: each shows that a theorem's hypotheses hold for data of the program.
mod Configs
mod Routing
mod Clusters
mod Supervising
mod Working
mod Loading
