-- ===== src/Skills.antt =====
-- The skills of a workspace: crates/bobaclaw-skills/src and the tool in front of them.
--
-- The tree of files has no symbolic links. The file of the skills' records, .skills-state.json, is kept
-- beside the tree, so what is said of the files is said of the others.
pub mod Validate
pub mod Guard
pub mod State
pub mod Io
pub mod Manager
pub mod Handler
pub mod Registry
pub mod Enabled
pub mod Paths
pub mod Trimmed
pub mod Steps
pub mod Created
pub mod Creation
pub mod Inside
pub mod Deleted
pub mod Tests
