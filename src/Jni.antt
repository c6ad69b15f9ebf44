-- ===== src/Jni.antt =====
-- The virtual machine and the C heap that the native code runs on.
pub mod Machine
pub mod Memory
pub mod Calls
pub mod Objects
pub mod Method
pub mod Steps
pub mod Arrays
pub mod Faults
pub mod Strings
pub mod Valid
pub mod Keeps
pub mod Follows
pub mod FollowsCalls
pub mod EndsCalls
pub mod FollowsMethod
pub mod Changes
pub mod KeptHeap
pub mod KeptElements
pub mod KeptArrays
pub mod KeptMethod
pub mod Moves
pub mod MovesSteps
pub mod MovesCalls
