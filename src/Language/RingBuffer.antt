-- ===== src/Language/RingBuffer.antt =====
-- src/language/runtime/ring-buffer.ts and decimal-ring-buffer.ts: sliding windows with a running
-- sum. Both classes keep the same slots, so these stand in `Slots`, and each class adds its sum.
-- The values are a type with the arithmetic that the code uses: doubles in one class, the `Decimal`
-- of decimal.js in the other. `hole` is what a slot of `new Array(n)` holds before it is written.
pub mod Slots
mod Collect
pub mod Window
pub mod Recent
pub mod Classes
pub mod Sum
pub mod Tests
