-- ===== src/Netman.antt =====
-- The frame rings of netman, between the EE (netman/src) and the IOP (netman_iop/src).
pub mod TxRing
pub mod RxStack
pub mod RxRing
pub mod Span
pub mod RxInv
pub mod RxIop
pub mod RxEnqueue
pub mod RxArrive
pub mod RxTake
pub mod RxStart
pub mod RxRuns
pub mod RxReceive
pub mod RxFlow
pub mod RxTurns
pub mod RxQueue
pub mod RxMarked
pub mod RxWake
pub mod RxDrained
pub mod Interfaces
pub mod MainInterface
pub mod InterfaceSteps
pub mod InterfaceRuns
pub mod InterfaceLink
pub mod TxFlow
pub mod Manager
pub mod Registration
