-- ===== src/Programs.antt =====
-- The main functions of src/sender.c and src/receiver.c.
pub mod Options
pub mod SenderMain
pub mod ReceiverMain
pub mod Results
