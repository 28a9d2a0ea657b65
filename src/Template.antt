-- ===== src/Template.antt =====
-- lib/template: intrusive doubly linked lists and the queues made of them.
pub mod Links
pub mod Queue
mod Tests
