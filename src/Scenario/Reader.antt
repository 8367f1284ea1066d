-- ===== src/Scenario/Reader.antt =====
-- The reader of a scenario, src/config/config_loader.cpp, over the YAML library, which is a parameter.
pub mod Yaml
pub mod Names
pub mod NetworkSection
pub mod NodeSection
pub mod Sections
pub mod Loader
pub mod ActionNames
pub mod Chosen
pub mod Inherited
pub mod LoadedNodes
