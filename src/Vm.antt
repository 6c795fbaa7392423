-- ===== src/Vm.antt =====
-- src/jml_vm.c: the virtual machine.
pub mod Coroutine
pub mod Open
pub mod Running
pub mod Stack
pub mod Upvalues
pub mod Close
pub mod Capture
pub mod Call
pub mod Enter
pub mod Args
pub mod Rest
pub mod Run
pub mod Dispatch
pub mod Return
pub mod Tests
