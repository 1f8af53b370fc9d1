-- ===== src/Conf.antt =====
-- The configuration files of a TA, internal/conf: inputs.conf, transforms.conf and props.conf.
pub mod Data
pub mod Types
pub mod Params
pub mod Read
pub mod Props
