-- ===== src/Stream/Buffer/Append.antt =====
-- `BoundedBuffer::append` against a bounded queue: what is kept, what is dropped and what is counted.
pub mod Spec
mod Fits
mod Policies
pub mod Refines
