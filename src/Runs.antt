-- ===== src/Runs.antt =====
-- Runs of the model at concrete inputs: the protocol, the patterns and the service.
pub mod Numbers
pub mod Tank
mod Protocol
mod Session
mod Lan
mod Observer
mod Schedule
mod Service
mod Description
