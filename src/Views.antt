-- ===== src/Views.antt =====
-- apps/desktop/fltkhome: the models behind the desktop's pages, without their widgets.
pub mod Data
pub mod Paging
pub mod Items
pub mod Search
pub mod Detail
pub mod Home
pub mod Rows
