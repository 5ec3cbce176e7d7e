-- ===== src/Tests.antt =====
-- Runs of the model on concrete inputs, and each theorem at an input where its hypotheses hold.
mod Cache
mod Tiles
mod Views
mod Tables
mod Ui
mod Manager
mod Stores
mod Sql
mod Http
mod Index
mod Moves
