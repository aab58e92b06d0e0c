-- ===== src/Datasets.antt =====
-- What a dataset has to offer a training or a test: apps/api-control-plane/app/domain/model_configs/compatibility.py
-- and apps/api-control-plane/app/domain/training_runs/dataset_qualification.py.
pub mod Metadata
pub mod Compatibility
pub mod Qualification
pub mod Fields
pub mod Compatible
mod Qualified
mod Examples
