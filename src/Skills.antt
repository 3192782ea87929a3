-- ===== src/Skills.antt =====
-- Skills (src/skills): tool and prompt definitions, the loader that keeps them, and the skill manager
-- that looks them up, numbers their calls and runs them.
pub mod Execute
pub mod Loader
pub mod Names
pub mod Prompts
pub mod Removal
pub mod Validation
pub mod Table
pub mod Types
pub mod Versions
