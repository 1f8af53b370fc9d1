-- ===== src/Tests.antt =====
-- Runs of the definitions at concrete inputs, and the theorems applied to them.
mod Transforms
mod Limits
mod Operators
mod Delivered
mod Files
mod Collectors
mod Scripted
mod Cached
mod Parallel
mod Programs
mod Adapted
mod Refused
mod Delivers
mod Aliased
