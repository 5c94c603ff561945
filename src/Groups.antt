-- ===== src/Groups.antt =====
-- src/groups: the groups of users, their members, and who may do what.
pub mod Store
pub mod Service
