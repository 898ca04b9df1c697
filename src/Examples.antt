-- ===== src/Examples.antt =====
-- Runs of the modelled code on concrete inputs, one file for each group of components.
mod Scheduling
mod Locking
mod Recovering
mod Registry
mod Skilled
mod Running
mod Policing
mod Driving
mod Learning
mod Executing
mod Planning
mod Completing
mod Fulfilling
