-- ===== src/Ingestion.antt =====
-- The nightly import (domain/ingestion.py): reading the rows, checking them (child Validation), the
-- pipeline (child Pipeline) and the run around it (child Run).
pub mod CsvImporter
pub mod Source
pub mod Validation
pub mod Transform
pub mod Pipeline
pub mod Run
