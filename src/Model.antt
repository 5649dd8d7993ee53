-- ===== src/Model.antt =====
-- src/model: the data model of objects and their animations.
pub mod Handle
pub mod Transform
pub mod Related
pub mod Animation
pub mod Object
pub mod Property
pub mod DataList
